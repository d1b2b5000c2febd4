-- ===== src/Mirrors.antt =====
-- Utils/SteamMetadata/RemoteTomlLogic.h: the mirror chain and the policy of falling through it.
pub mod Expand
pub mod Https
pub mod Fetch
use better_steam_tools_ameth.Base.{
  ℕ, ◌+◌, ◌-◌, Bool, true, false, ◌&&◌, Option, none, some, List, [], ◌∷◌, ◌==◌, leb, ltb,
  if◌then◌else◌, map, length,
}
use better_steam_tools_ameth.Base.Text.{Bytes, codes, find}
use better_steam_tools_ameth.Template.{replace_all}

abbrev pub channel_token : Bytes
channel_token = codes "{channel}"

abbrev pub component_token : Bytes
component_token = codes "{component}"

abbrev pub sha256_token : Bytes
sha256_token = codes "{sha256}"

abbrev pub default_templates : List Bytes
default_templates =
    codes
      "https://raw.githubusercontent.com/madoiscool/steam-monitor/{channel}/{component}/{sha256}.toml"
    ∷ codes
        "https://cdn.jsdelivr.net/gh/madoiscool/steam-monitor@{channel}/{component}/{sha256}.toml"
    ∷ codes
        "https://raw.githubusercontent.com/OpenSteam001/steam-monitor/{channel}/{component}/{sha256}.toml"
    ∷ codes
        "https://cdn.jsdelivr.net/gh/OpenSteam001/steam-monitor@{channel}/{component}/{sha256}.toml"
    ∷ codes
        "https://git.lua.tools/luatools/steam-monitor/raw/branch/{channel}/{component}/{sha256}.toml"
    ∷ []

abbrev pub found : Option ℕ → Bool
found none = false
found (some k) = true

unfoldable pub is_valid_template : Bytes → Bool
is_valid_template url_template =
    found (find channel_token url_template)
    && found (find component_token url_template)
    && found (find sha256_token url_template)

unfoldable pub expand_template : Bytes → Bytes → Bytes → Bytes → Bytes
expand_template url_template channel component sha256 =
    replace_all
      (replace_all (replace_all url_template channel_token channel) component_token component)
      sha256_token sha256

unfoldable pub build_mirror_urls : List Bytes → Bytes → Bytes → Bytes → List Bytes
build_mirror_urls [] channel component sha256 = []
build_mirror_urls (t ∷ templates) channel component sha256 =
    expand_template t channel component sha256
    ∷ build_mirror_urls templates channel component sha256

abbrev pub is_mirror_hit : Bool → ℕ → Bool
is_mirror_hit transport_ok status = transport_ok && status == 200

abbrev pub lower : ℕ → ℕ
lower c = if leb b'A' c && leb c b'Z' then c - b'A' + b'a' else c

-- the loop over the scheme, and the text from the same position on
unfoldable pub matches_scheme : Bytes → Bytes → Bool
matches_scheme [] url = true
matches_scheme (s ∷ scheme) [] = false
matches_scheme (s ∷ scheme) (c ∷ url) = if lower c == s then matches_scheme scheme url else false

unfoldable pub is_https_url : Bytes → Bool
is_https_url url =
    if ltb (length url) (length (codes "https://"))
    then false
    else matches_scheme (codes "https://") url

pub data LoadSource : Type 0 where
  remote cache_hit cache_fallback : LoadSource

abbrev pub describe_load_source : Bool → Bool → LoadSource
describe_load_source from_cache fallback =
    if from_cache then (if fallback then cache_fallback else cache_hit) else remote
