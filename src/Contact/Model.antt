-- ===== src/Contact/Model.antt =====
-- backend/internal/contact/contact.go, customfield.go and normalize.go: contacts, requests, and the
-- number of a contact.
use whaticket_community.Prelude.{
  ℕ, Bool, Option, none, Bytes, filter, is_digit, if◌then◌else◌, get_or, is_some, ◌||◌, not, is_nil,
  List, trim_space,
}

pub record Contact : Type 0 where
  pub id : ℕ
  pub name : Bytes
  pub number : Bytes
  pub lid : Bytes
  pub email : Bytes
  pub profile_pic_url : Bytes
  pub is_group : Bool

pub record CustomFieldData : Type 0 where
  pub id : Option ℕ
  pub name : Bytes
  pub value : Bytes

pub record CustomField : Type 0 where
  pub id : ℕ
  pub contact_id : ℕ
  pub name : Bytes
  pub value : Bytes

pub record CreateOrUpdateRequest : Type 0 where
  pub number : Bytes
  pub name : Bytes
  pub lid : Bytes
  pub profile_pic_url : Bytes
  pub is_group : Bool
  pub email : Bytes

pub record CreateRequest : Type 0 where
  pub name : Bytes
  pub number : Bytes
  pub email : Bytes
  pub extra_info : List CustomFieldData

-- A pointer is an option.
pub record UpdateRequest : Type 0 where
  pub name : Option Bytes
  pub number : Option Bytes
  pub email : Option Bytes
  pub extra_info : Option (List CustomFieldData)

-- The map `updates`: the columns that it may hold.
pub record Updates : Type 0 where
  pub name : Option Bytes
  pub number : Option Bytes
  pub lid : Option Bytes
  pub email : Option Bytes
  pub profile_pic_url : Option Bytes

abbrev pub no_updates : Updates
no_updates = record { name = none; number = none; lid = none; email = none; profile_pic_url = none }

-- `len(updates) == 0`
unfoldable pub is_empty : Updates → Bool
is_empty u = not (
    is_some u.name
    || (is_some u.number || (is_some u.lid || (is_some u.email || is_some u.profile_pic_url))))

-- What `UPDATE … SET` of these columns makes of a row.
unfoldable pub apply : Updates → Contact → Contact
apply u c = record c {
  name = get_or u.name c.name;
  number = get_or u.number c.number;
  lid = get_or u.lid c.lid;
  email = get_or u.email c.email;
  profile_pic_url = get_or u.profile_pic_url c.profile_pic_url;
}

-- `NormalizeNumber`: a group's is trimmed, and of any other the digits are kept. The trimming of
-- white space before the latter makes no difference, since it removes no digit.
unfoldable pub normalize_number : Bytes → Bool → Bytes
normalize_number input is_group =
    let trimmed = trim_space input in if is_group then trimmed else filter is_digit trimmed

-- `keepIfEmpty`
abbrev pub keep_if_empty : Bytes → Bytes → Bytes
keep_if_empty existing incoming = if is_nil incoming then existing else incoming
