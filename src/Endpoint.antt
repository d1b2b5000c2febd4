-- ===== src/Endpoint.antt =====
-- Utils/SteamMetadata/ManifestUrlLogic.h and .cpp: the address of a manifest request. The `printf`
-- of the C library is a parameter: the whole text that it gives for a template and its numbers, or
-- none where it fails. The bytes that a failed call leaves in the buffer are a parameter as well.
pub mod Override
use better_steam_tools_ameth.Base.{
  ℕ, ◌-◌, Bool, true, false, not, ◌&&◌, Option, none, some, List, [], ◌∷◌, ◌==◌, leb, if◌then◌else◌,
  length, take,
}
use better_steam_tools_ameth.Base.Text.{Bytes, codes}
use better_steam_tools_ameth.Numbers.{decimal}
use better_steam_tools_ameth.Template.{replace_all}

pub data Shape : Type 0 where
  override_url depot_aware gid_only : Shape

pub record Choice : Type 0 where
  pub url : Bytes
  pub shape : Shape
  pub truncated : Bool

abbrev pub max_provider_url_len : ℕ
max_provider_url_len = 256

abbrev pub is_unset : Bytes → Bool
is_unset [] = true
is_unset (c ∷ cs) = false

-- `snprintf` into the buffer, and what is made of it
unfoldable pub print_url : Option Bytes → Bytes → Shape → Choice
print_url none buffer shape = record {
  url = take (max_provider_url_len - 1) buffer;
  shape = shape;
  truncated = true;
}
print_url (some written) buffer shape = record {
  url = take (max_provider_url_len - 1) written;
  shape = shape;
  truncated = leb max_provider_url_len (length written);
}

-- the templates of a provider
unfoldable pub provider_url :
    (Bytes → List ℕ → Option Bytes) → Bytes → Bytes → Option Bytes → ℕ → ℕ → ℕ → Choice
unfolding print_url
provider_url printf buffer template none app_id depot_id gid =
    print_url (printf template (gid ∷ [])) buffer gid_only
provider_url printf buffer template (some template_ex) app_id depot_id gid =
    if depot_id == 0
    then print_url (printf template (gid ∷ [])) buffer gid_only
    else print_url (printf template_ex (app_id ∷ depot_id ∷ gid ∷ [])) buffer depot_aware

-- `Build`
unfoldable pub build :
    (Bytes → List ℕ → Option Bytes) → Bytes → Bytes → Bytes → Option Bytes → ℕ → ℕ → ℕ → Choice
unfolding provider_url
build printf buffer override_template template template_ex app_id depot_id gid =
    if not (is_unset override_template)
    then record {
      url =
          replace_all
            (replace_all (replace_all override_template (codes "{appid}") (decimal app_id))
              (codes "{depotid}") (decimal depot_id))
            (codes "{gid}") (decimal gid);
      shape = override_url;
      truncated = false;
    }
    else provider_url printf buffer template template_ex app_id depot_id gid

abbrev pub is_depot_aware : Shape → Bool
is_depot_aware depot_aware = true
is_depot_aware _ = false

unfoldable pub should_fallback_to_gid_only : Shape → Bool → Bool
should_fallback_to_gid_only shape request_failed = is_depot_aware shape && request_failed
