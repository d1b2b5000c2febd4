-- ===== src/Template.antt =====
-- `ReplaceAll` of Utils/SteamMetadata/RemoteTomlLogic.h and ManifestUrlLogic.cpp.
pub mod Reference
pub mod Fill
use better_steam_tools_ameth.Base.{ℕ, zero, suc, ◌+◌, Option, none, some, ◌++◌, length, take, drop}
use better_steam_tools_ameth.Base.Text.{Bytes, find_from}

-- `text.replace(pos, count, to)`
unfoldable pub replace : Bytes → ℕ → ℕ → Bytes → Bytes
replace text pos count to = take pos text ++ (to ++ drop (pos + count) text)

-- the `while`, from position `pos` on
unfoldable pub replace_from : ℕ → Bytes → Bytes → Bytes → ℕ → Bytes
replace_from zero from to text pos = text
replace_from (suc fuel) from to text pos = elim (find_from from text pos) [
  | none ↦ text
  | some k ↦ replace_from fuel from to (replace text k (length from) to) (k + length to)
]

-- each round replaces bytes of the text that was given, so its length bounds the rounds
unfoldable pub replace_all : Bytes → Bytes → Bytes → Bytes
replace_all text from to = replace_from (suc (length text)) from to text 0
