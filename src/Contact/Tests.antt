-- ===== src/Contact/Tests.antt =====
-- The theorems on contacts at concrete inputs, and runs.
use whaticket_community.Prelude.{
  ◌≡◌, refl, true, false, none, some, [], arith, bytes, if◌then◌else◌, nat_beq, bytes_beq,
  trim_space, filter,
}
use whaticket_community.Platform.{ok, err, AppError}
use whaticket_community.Platform.Tables.{Table, scan, every}
use whaticket_community.Contact.Model.{
  Contact, CreateOrUpdateRequest, CreateRequest, UpdateRequest, apply, is_empty, normalize_number,
}
use whaticket_community.Contact.Memory.{memory}
use whaticket_community.Contact.Merge.{World, normalized, create_or_update, merge, lid_updates}
use whaticket_community.Contact.Merge.Conflict.{create_or_update-never_merges}
use whaticket_community.Contact.Merge.Upsert.{Saved, create_or_update-Saved}
use whaticket_community.Contact.Validator.{valid}
use whaticket_community.Contact.Service.{create_contact}
use whaticket_community.Contact.Service.Writes.{Made, create_contact-Made}

abbrev bob : Contact
bob = record {
  id = 1;
  name = bytes "Bob";
  number = bytes "5511999998888";
  lid = [];
  email = [];
  profile_pic_url = [];
  is_group = false;
}

abbrev hidden : Contact
hidden = record bob { id = 2; number = []; lid = bytes "100200@lid" }

abbrev two : World (Table Contact)
two = record {
  store = record {
    bound = 3;
    row = λ j. if nat_beq j 1 then some bob else if nat_beq j 2 then some hidden else none;
  };
  frames = [];
}

-- Bob writes, now with his number and his LID.
abbrev arrives : CreateOrUpdateRequest
arrives = record {
  number = bytes " +55 11 99999-8888";
  name = bytes "Bob B. ";
  lid = bytes "100200@lid";
  profile_pic_url = [];
  is_group = false;
  email = [];
}

create_or_update-never_merges_example :
    (e : AppError) × (create_or_update memory true arrives two ≡ (err e, two))
unfolding normalized normalize_number trim_space filter scan bytes_beq
create_or_update-never_merges_example =
    create_or_update-never_merges memory true arrives two bob hidden (λ e. cc (e)) (λ e. cc (e))
      refl refl (λ e. omega arith)

abbrev one : World (Table Contact)
one = record two { store = record two.store { row = λ j. if nat_beq j 1 then some bob else none } }

-- With one contact the LID is added to it.
one_is_updated :
    (create_or_update memory true arrives one).0
    ≡ ok (record bob { name = bytes "Bob B."; lid = bytes "100200@lid" })
unfolding create_or_update scan every apply is_empty normalize_number filter trim_space bytes_beq
    merge lid_updates
one_is_updated = refl

create_or_update-Saved_example :
    Saved memory
      (normalized memory true arrives)
      true
      one
      (create_or_update memory true arrives one)
create_or_update-Saved_example = create_or_update-Saved memory true arrives one

abbrev ann : CreateRequest
ann = record { name = bytes "Ann"; number = bytes "49 151 234567"; email = []; extra_info = [] }

create_contact-Made_example :
    Made memory true ann one
      (λ name email. valid)
      (create_contact memory true (λ name email. valid) ann one)
create_contact-Made_example = create_contact-Made memory true ann one (λ name email. valid)

abbrev renames : UpdateRequest
renames = record { name = some (bytes "Robert"); number = none; email = none; extra_info = none }
