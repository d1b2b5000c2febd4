-- ===== src/Mirrors/Fetch.antt =====
-- Utils/SteamMetadata/RemoteToml.cpp: `Fetch` and `FetchRemoteOnly`. The hash of the DLL, the answer
-- of each mirror, whether the cache file can be opened and what a write leaves in it are parameters.
pub mod Chain
pub mod Cache
pub mod Again
pub mod Remote
use better_steam_tools_ameth.Base.{
  ℕ, Bool, true, false, not, ◌&&◌, Option, none, some, List, [], ◌∷◌, if◌then◌else◌, length, ◌==◌,
}
use better_steam_tools_ameth.Base.Text.{Bytes}
use better_steam_tools_ameth.Mirrors.{
  is_valid_template, default_templates, build_mirror_urls, is_mirror_hit, is_https_url,
}

pub record HttpResult : Type 0 where
  pub body : Bytes
  pub status : ℕ
  pub ok : Bool

pub record Request : Type 0 where
  pub channel : Bytes
  pub component : Bytes
  pub dll_path : Bytes

pub record Result : Type 0 where
  pub ok : Bool
  pub from_cache : Bool
  pub cache_fallback : Bool
  pub body : Bytes
  pub sha256 : Bytes

-- what the program asks of the rest of the system
pub record Env : Type 0 where
  -- `SteamDiagnostics::Sha256Of`; empty is its failure
  pub sha256_of : Bytes → Bytes
  -- `Config::GetRemoteUrlTemplates`
  pub configured : List Bytes
  pub http : Bytes → HttpResult
  -- the cache file could be opened in the third, the fifth and the sixth step
  pub opens_first : Bool
  pub opens_write : Bool
  pub opens_again : Bool
  -- what the fifth step leaves in the cache file for a body: the file is cut to nothing first, and
  -- the success of the write is not checked
  pub stored : Bytes → Bytes

abbrev pub is_empty {ℓ} : {A : Type ℓ} → List A → Bool
is_empty [] = true
is_empty (x ∷ xs) = false

unfoldable pub keep_valid : List Bytes → List Bytes
keep_valid [] = []
keep_valid (t ∷ ts) = let rest = keep_valid ts in if is_valid_template t then t ∷ rest else rest

unfoldable pub build_url_templates : List Bytes → List Bytes
build_url_templates configured =
    if is_empty configured then default_templates else keep_valid configured

-- the loop over the mirrors: the addresses asked, and the last answer
unfoldable pub walk : (Bytes → HttpResult) → HttpResult → List Bytes → List Bytes × HttpResult
walk http last [] = ([], last)
walk http last (url ∷ urls) =
    let answer = http url in
    let rest = walk http answer urls in
    if is_mirror_hit answer.ok answer.status then (url ∷ [], answer) else (url ∷ rest.0, rest.1)

abbrev pub no_answer : HttpResult
no_answer = record { body = []; status = 0; ok = false }

abbrev pub failed : Bytes → Result
failed sha256 = record {
  ok = false;
  from_cache = false;
  cache_fallback = false;
  body = [];
  sha256 = sha256;
}

-- a cache file that exists, can be opened and is not empty
abbrev pub readable : Option Bytes → Bool → Option Bytes
readable none opens = none
readable (some []) opens = none
readable (some (c ∷ cs)) opens = if opens then some (c ∷ cs) else none

-- the result, the requests that were made, and the cache file afterwards
pub record Outcome : Type 0 where
  pub result : Result
  pub requests : List Bytes
  pub file : Option Bytes

-- steps 5 to 7, on the last answer of the chain
unfoldable pub conclude : Env → Bytes → Option Bytes → List Bytes → HttpResult → Outcome
conclude env sha256 file requests answer =
    if is_mirror_hit answer.ok answer.status && not (is_empty answer.body)
    then record {
      result = record (failed sha256) { ok = true; body = answer.body };
      requests = requests;
      file = if env.opens_write then some (env.stored answer.body) else file;
    }
    else elim (readable file env.opens_again) [
      | some body ↦ record {
        result = record (failed sha256) {
          ok = true;
          from_cache = true;
          cache_fallback = true;
          body = body;
        };
        requests = requests;
        file = file;
      }
      | none ↦ record { result = failed sha256; requests = requests; file = file }
    ]

unfoldable pub mirror_urls : Env → Request → Bytes → List Bytes
mirror_urls env request sha256 =
    build_mirror_urls (build_url_templates env.configured) request.channel request.component sha256

-- `Fetch`, where `file` is what the cache path of the hash holds
unfoldable pub fetch : Env → Request → Option Bytes → Outcome
fetch env request file =
    let sha256 = env.sha256_of request.dll_path in
    if is_empty sha256
    then record { result = failed sha256; requests = []; file = file }
    else elim (readable file env.opens_first) [
      | some body ↦ record {
        result = record (failed sha256) { ok = true; from_cache = true; body = body };
        requests = [];
        file = file;
      }
      | none ↦
          let (requests, answer) = walk env.http no_answer (mirror_urls env request sha256) in
          conclude env sha256 file requests answer
    ]

pub record RemoteBody : Type 0 where
  pub ok : Bool
  pub body : Bytes
  pub url : Bytes

-- the loop of `FetchRemoteOnly`: the addresses asked, and what is returned
unfoldable pub walk_remote :
    (Bytes → HttpResult) → Bool → Bytes → List Bytes → List Bytes × RemoteBody
walk_remote http require_https last [] = ([], record { ok = false; body = []; url = last })
walk_remote http require_https last (url ∷ urls) =
    let answer = http url in
    let rest = walk_remote http require_https url urls in
    let skipped = walk_remote http require_https last urls in
    if require_https && not (is_https_url url)
    then skipped
    else if is_mirror_hit answer.ok answer.status && not (is_empty answer.body)
    then (url ∷ [], record { ok = true; body = answer.body; url = url })
    else (url ∷ rest.0, rest.1)

unfoldable pub fetch_remote_only : Env → Request → Bytes → Bool → List Bytes × RemoteBody
fetch_remote_only env request sha256 require_https =
    if is_empty sha256
    then ([], record { ok = false; body = []; url = [] })
    else walk_remote env.http require_https [] (mirror_urls env request sha256)
