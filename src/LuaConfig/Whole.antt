-- ===== src/LuaConfig/Whole.antt =====
-- From the start: the configuration after any sequence of calls.
use better_steam_tools_ameth.Base.{ℕ, ◌+◌, ◌^◌, ◌<◌, ◌≡◌, refl, false, List, [], arith, length}
use better_steam_tools_ameth.Base.Keyed.{number_key, text_key, member, get, has}
use better_steam_tools_ameth.LuaConfig.{ConfigState}
use better_steam_tools_ameth.LuaConfig.Files.{System, Lua, is_loaded}
use better_steam_tools_ameth.LuaConfig.Count.{providers}
use better_steam_tools_ameth.LuaConfig.Given.{gives}
use better_steam_tools_ameth.LuaConfig.Loads.{loads}
use better_steam_tools_ameth.LuaConfig.History.{
  FileCall, run_calls, note_calls, any_gives, AllNamed,
}
use better_steam_tools_ameth.LuaConfig.Refines.{Represents}
use better_steam_tools_ameth.LuaConfig.Calls.{Represents-configured, run_calls-Agrees}

-- the system before any file: no depot, no pin, and an interpreter
abbrev pub empty_config : ConfigState
empty_config = record {
  depots = record {
    depot_keys = [];
    file_depots = [];
    ref_count = [];
    file_mtime = [];
    purchase_time = [];
    pending_removals = [];
    pending_additions = [];
  };
  pins = record {
    manifest_overrides = [];
    file_overrides = [];
    parse_sequence = [];
    next_sequence = 0;
  };
  tables = record {
    access_tokens = [];
    legacy_cd_keys = [];
    stat_steam_ids = [];
    owned_app_ids = [];
    process_names = [];
    forced_denuvo = [];
    eticket_url = [];
  };
}

abbrev pub started : {G : Type 0} → G → System G
started globals = record {
  globals = globals;
  has_manifest_code_func = false;
  has_manifest_code_func_ex = false;
  config = empty_config;
}

pub empty-Represents : (left : ℕ) → left < 2 ^ 32 → Represents empty_config [] left
unfolding providers member get has is_loaded gives loads
empty-Represents left l = record {
  consistent = record { counts = λ x. refl; kept = λ x. refl; mapped = tt; distinct = tt };
  same_given = λ file x. refl;
  same_loaded = λ file. refl;
  mapped = tt;
  room = omega arith;
}

-- From the start, after fewer than 2^32 calls that parse files with a name, unload files or take
-- the queues, a depot is configured exactly if some file that has not been unloaded since gives
-- it by the operations of its last run that was taken. A run is taken as a whole, unless it
-- broke off and the run taken before it had given a depot or a pin.
pub run_calls_configured :
    {G : Type 0} (lua : Lua G) (globals : G) (calls : List FileCall) (x : ℕ)
    → AllNamed calls
    → length calls < 2 ^ 32
    → has x (run_calls lua calls (started globals)).config.depots.depot_keys
      ≡ any_gives x (note_calls lua calls (record { interpreter = globals; by_file = [] })).by_file
run_calls_configured lua globals calls x named few =
    let start = empty-Represents (length calls + 0) (omega arith) in
    let end = run_calls-Agrees lua calls (started globals) [] 0 named start in
    Represents-configured x _ _ 0 end.represents
