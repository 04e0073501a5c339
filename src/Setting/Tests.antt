-- ===== src/Setting/Tests.antt =====
-- The theorems on settings at concrete inputs, and runs.
use whaticket_community.Prelude.{
  ◌≡◌, refl, true, [], ◌∷◌, Bytes, bytes, bytes_beq, bytes_keyed, lookup,
}
use whaticket_community.Setting.Service.{
  World, key_user_api_token, update_setting, announce, validate_value,
}
use whaticket_community.Setting.Memory.{Memory, memory}

abbrev settings : World Memory
settings = record {
  store =
      (bytes "userCreation", bytes "enabled") ∷ (key_user_api_token, bytes "0123456789abcdef") ∷ [];
  frames = [];
  logged = [];
}

abbrev fresh_token : Bytes
fresh_token = bytes "fedcba9876543210"

-- The token is not told.
token_is_hidden : (update_setting memory true key_user_api_token fresh_token settings).1.frames ≡ []
unfolding update_setting validate_value bytes_beq lookup announce
token_is_hidden = refl
