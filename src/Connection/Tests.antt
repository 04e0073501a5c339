-- ===== src/Connection/Tests.antt =====
-- The theorems on connections at concrete inputs, and runs.
use whaticket_community.Prelude.{
  ◌≡◌, refl, true, false, none, some, [], ◌∷◌, bytes, if◌then◌else◌, nat_beq, trim_space, filter,
  has, add,
}
use whaticket_community.Platform.{transaction}
use whaticket_community.Connection.Model.{
  Connection, CreateRequest, UpdateRequest, no_settings, valid, validate_create, trim_create,
}
use whaticket_community.Connection.Memory.{Memory, memory}
use whaticket_community.Connection.Service.{
  World, start_session, create_connection, update_connection, publish, tell,
}
use whaticket_community.Connection.Service.Default.{Created, create_connection-Created}
use whaticket_community.Connection.Service.Writes.{Changed, update_connection-Changed}

abbrev office : Connection
office = record {
  id = 1;
  name = bytes "Office";
  status = bytes "CONNECTED";
  qrcode = [];
  retries = 0;
  is_default = true;
  greeting_message = [];
  farewell_message = [];
  settings = no_settings;
  media_delivery = bytes "s3";
}

abbrev one : World Memory
one = record {
  store = record {
    rows = record { bound = 2; row = λ j. if nat_beq j 1 then some office else none };
    assigned = λ j. [];
  };
  frames = [];
  commands = [];
}

abbrev shop : CreateRequest
shop = record {
  name = bytes " Shop";
  queue_ids = 3 ∷ 3 ∷ [];
  greeting_message = bytes "Hello";
  farewell_message = [];
  is_default = some true;
  settings = none;
}

create_connection-Created_example :
    Created memory true shop one
      (λ req. valid)
      (create_connection memory true (λ req. valid) shop one)
create_connection-Created_example = create_connection-Created memory true shop one (λ req. valid)

-- The new connection is the default and its session is started.
shop_is_started :
    (create_connection memory true (λ req. valid) shop one).1.commands
    ≡ start_session 2 no_settings ∷ []
unfolding create_connection trim_space filter has add publish validate_create trim_create
    transaction tell
shop_is_started = refl

abbrev no_default : UpdateRequest
no_default = record {
  name = none;
  queue_ids = some (4 ∷ []);
  greeting_message = none;
  farewell_message = none;
  is_default = some false;
  settings = none;
}

update_connection-Changed_example :
    Changed memory true 1 no_default one
      (λ req. valid)
      (update_connection memory true (λ req. valid) 1 no_default one)
update_connection-Changed_example =
    update_connection-Changed memory true 1 no_default one (λ req. valid)
