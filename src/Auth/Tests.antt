-- ===== src/Auth/Tests.antt =====
-- The theorems on users and sessions at concrete inputs, and runs.
use whaticket_community.Prelude.{
  ◌+◌, bytes_keyed, true, none, some, [], ◌∷◌, Bytes, bytes, if◌then◌else◌, nat_beq,
}
use whaticket_community.User.Model.{User, UpdateRequest}
use whaticket_community.User.Memory.{Memory, memory, plain}
use whaticket_community.User.Service.{World, update_user, delete_user}
use whaticket_community.User.Service.Writes.{Changed, update_user-Changed}
use whaticket_community.User.Service.Deletion.{Deletion, delete_user-Deletion}
use whaticket_community.Auth.Tokens.{Secrets}
use whaticket_community.Auth.Sessions.{UserRecord, to_auth_record}
use whaticket_community.Auth.Memory.{access_token, refresh_token}

abbrev agent : User
agent = record {
  id = 3;
  name = bytes "Ann";
  email = bytes "ann@x.org";
  password_hash = 36 ∷ bytes "secret";
  profile = bytes "user";
  whatsapp_id = none;
  token_version = 4;
}

abbrev people : Memory
people = record {
  users = record { bound = 4; row = λ j. if nat_beq j 3 then some agent else none };
  tickets =
      λ j. if nat_beq j 1 then some (record { status = bytes "open"; user_id = some 3 }) else none;
}

abbrev world : World Memory
world = record { store = people; frames = [] }

abbrev secrets : Secrets
secrets = record { access_secret = bytes "access"; refresh_secret = bytes "refresh" }

abbrev new_password : UpdateRequest
new_password = record {
  name = none;
  email = none;
  password = some (bytes "secret2");
  profile = none;
  queue_ids = none;
  whatsapp_id = none;
}

update_user-Changed_example :
    Changed memory plain true 3 new_password world
      (λ e. true)
      true
      (update_user memory plain true (λ e. true) 3 new_password true world)
update_user-Changed_example =
    update_user-Changed memory plain true 3 new_password world (λ e. true) true

delete_user-Deletion_example :
    Deletion memory plain true 3 world true (delete_user memory plain true 3 true world)
delete_user-Deletion_example = delete_user-Deletion memory plain true 3 world true

abbrev changed_agent : User
changed_agent = record agent {
  password_hash = 36 ∷ bytes "secret2";
  token_version = agent.token_version + 1;
}

abbrev ann : UserRecord
ann = to_auth_record agent

abbrev ann_access : Bytes
ann_access = access_token (bytes "access") (record {
  usarname = bytes "Ann";
  profile = bytes "user";
  id = 3;
  issued_at = 50;
  expires_at = 950;
})

abbrev ann_refresh : Bytes
ann_refresh =
    refresh_token (bytes "refresh")
      (record { id = 3; token_version = 4; issued_at = 50; expires_at = 604850 })
