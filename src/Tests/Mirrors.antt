-- ===== src/Tests/Mirrors.antt =====
-- The mirror chain and the cache of the remote files at concrete inputs.
use better_steam_tools_ameth.Base.{
  ◌≡◌, ◌≢◌, ◌↔◌, ◌⊎◌, refl, true, false, none, some, Option, List, [], ◌∷◌, arith,
}
use better_steam_tools_ameth.Base.Text.{Bytes, codes}
use better_steam_tools_ameth.Template.{replace_all}
use better_steam_tools_ameth.Template.Reference.{one_pass, replace_all-one_pass}
use better_steam_tools_ameth.Template.Fill.{Piece, text, slot, first, third}
use better_steam_tools_ameth.Base.Find.{absent}
use better_steam_tools_ameth.Mirrors.Fetch.{Request, Env, fetch, fetch_remote_only, mirror_urls}
use better_steam_tools_ameth.Mirrors.Fetch.Cache.{IsSound, fetch-IsSound, fetch_offline}
use better_steam_tools_ameth.Mirrors.Fetch.Remote.{
  AllHttps, asked, allowed, first_usable, fetch_remote_only-https,
}

abbrev pieces : List Piece
pieces = text (codes "https://m/") ∷ slot first ∷ text (codes "/") ∷ slot third ∷ []

pieces_clean :
    (absent b'{' (codes "https://m/") ≡ true) × ((absent b'{' (codes "/") ≡ true) × Unit {0})
unfolding absent
pieces_clean = (refl, (refl, tt))

replace_all-one_pass_example :
    replace_all (codes "a{x}b{x}") (codes "{x}") (codes "{x}{x}")
    ≡ one_pass (codes "{x}") (codes "{x}{x}") 0 (codes "a{x}b{x}")
replace_all-one_pass_example =
    replace_all-one_pass (codes "a{x}b{x}") (codes "{x}") (codes "{x}{x}") (omega arith)

brace_free : (absent b'{' (codes "pattern") ≡ true) × (absent b'{' (codes "steamui") ≡ true)
unfolding absent
brace_free = (refl, refl)

-- every mirror answers 200 with a body of two bytes
abbrev online : Env
online = record {
  sha256_of = λ path. codes "9f";
  configured = [];
  http = λ url. record { body = codes "ok"; status = 200; ok = true };
  opens_first = true;
  opens_write = true;
  opens_again = true;
  stored = λ body. body;
}

abbrev request : Request
request = record { channel = codes "pattern"; component = codes "steamui"; dll_path = codes "c" }

abbrev no_file : Option Bytes
no_file = none

fetch-IsSound_example :
    IsSound online (mirror_urls online request (codes "9f")) no_file (fetch online request no_file)
fetch-IsSound_example = fetch-IsSound online request no_file

fetch_offline_example : ((fetch online request no_file).requests ≢ []) ↔ (
    (codes "9f" ≢ [])
    × ((no_file ≡ none) ⊎ (no_file ≡ some []) ⊎ (true ≡ false))
    × (mirror_urls online request (codes "9f") ≢ []))
fetch_offline_example = fetch_offline online request no_file

-- a disk that takes one byte
abbrev cramped : Env
cramped = record online { stored = λ body. codes "o" }

fetch_remote_only_example :
    AllHttps (fetch_remote_only online request (codes "9f") true).0
    × ((fetch_remote_only online request (codes "9f") true).0
        ≡ asked online.http (allowed true (mirror_urls online request (codes "9f"))))
    × ((fetch_remote_only online request (codes "9f") true).1.ok
        ≡ (first_usable online.http (allowed true (mirror_urls online request (codes "9f")))).0)
    × ((fetch_remote_only online request (codes "9f") true).1.body
        ≡ (first_usable online.http (allowed true (mirror_urls online request (codes "9f")))).1)
fetch_remote_only_example = fetch_remote_only-https online request (codes "9f") refl
