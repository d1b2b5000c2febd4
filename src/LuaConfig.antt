-- ===== src/LuaConfig.antt =====
-- Utils/Config/LuaConfig.cpp: the configuration that Lua files give. One function runs under the
-- lock of the state at a time, so the state is passed from one to the next. `file` is
-- `g_currentFile`: the file that is committed, or empty outside a commit.
pub mod Files
pub mod Count
pub mod Drop
pub mod Consistent
pub mod Grow
pub mod Given
pub mod Commit
pub mod Loads
pub mod History
pub mod Refines
pub mod Calls
pub mod Whole
pub mod Newest
pub mod Active
pub mod Wins
pub mod Timed
pub mod Keys
pub mod Script
pub mod Query
pub mod Reload
pub mod Pinned
use better_steam_tools_ameth.Base.{
  ℕ, ◌+◌, ◌-◌, ◌%◌, ◌^◌, Bool, true, false, not, ◌||◌, Option, none, some, List, [], ◌∷◌, ◌++◌,
  ◌==◌, ltb, if◌then◌else◌, max,
}
use better_steam_tools_ameth.Base.Text.{Bytes}
use better_steam_tools_ameth.Base.Keyed.{number_key, text_key, member, insert, get, has, put, erase}

abbrev pub is_unnamed : Bytes → Bool
is_unnamed [] = true
is_unnamed (c ∷ cs) = false

abbrev pub or_else {ℓ} : {A : Type ℓ} → Option A → A → A
or_else none a = a
or_else (some b) a = b

-- `ManifestOverride`
pub record ManifestOverride : Type 0 where
  pub gid : ℕ
  pub size : ℕ

-- the depots, who gives them, and the queues of what has changed
pub record Depots : Type 0 where
  pub depot_keys : List (ℕ × Bytes)
  pub file_depots : List (Bytes × List ℕ)
  pub ref_count : List (ℕ × ℕ)
  pub file_mtime : List (Bytes × ℕ)
  pub purchase_time : List (ℕ × ℕ)
  pub pending_removals : List ℕ
  pub pending_additions : List ℕ

-- the pinned manifests
pub record Pins : Type 0 where
  pub manifest_overrides : List (ℕ × ManifestOverride)
  pub file_overrides : List (Bytes × List (ℕ × ManifestOverride))
  pub parse_sequence : List (Bytes × ℕ)
  pub next_sequence : ℕ

-- what no file takes back
pub record Tables : Type 0 where
  pub access_tokens : List (ℕ × ℕ)
  pub legacy_cd_keys : List (ℕ × Bytes)
  pub stat_steam_ids : List (ℕ × ℕ)
  pub owned_app_ids : List ℕ
  pub process_names : List (Bytes × ℕ)
  pub forced_denuvo : List ℕ
  pub eticket_url : Bytes

pub record ConfigState : Type 0 where
  pub depots : Depots
  pub pins : Pins
  pub tables : Tables

-- `++` and `--` on a uint32
unfoldable pub succ_32 : ℕ → ℕ
succ_32 n = (n + 1) % 2 ^ 32

unfoldable pub pred_32 : ℕ → ℕ
pred_32 n = (n + (2 ^ 32 - 1)) % 2 ^ 32

-- the key that `addappid` stores
unfoldable pub store_key : ℕ → Bytes → List (ℕ × Bytes) → List (ℕ × Bytes)
store_key depot key depot_keys =
    if not (is_unnamed key) || not (has depot depot_keys)
    then put depot key depot_keys
    else depot_keys

-- the time of purchase: the latest time of the files that give the depot
unfoldable pub stamp_purchase : ℕ → Option ℕ → List (ℕ × ℕ) → List (ℕ × ℕ)
stamp_purchase depot none times = times
stamp_purchase depot (some mtime) times = put depot (max (or_else (get depot times) 0) mtime) times

-- the part of `addappid` for a depot that the file has not given yet
unfoldable pub count_depot : Bytes → ℕ → List ℕ → Depots → Depots
unfolding succ_32 stamp_purchase
count_depot file depot given d =
    let count = succ_32 (or_else (get depot d.ref_count) 0) in
    record {
      depot_keys = d.depot_keys;
      file_depots = put file (depot ∷ given) d.file_depots;
      ref_count = put depot count d.ref_count;
      file_mtime = d.file_mtime;
      purchase_time = stamp_purchase depot (get file d.file_mtime) d.purchase_time;
      pending_removals = d.pending_removals;
      pending_additions =
          if count == 1 then d.pending_additions ++ (depot ∷ []) else d.pending_additions;
    }

-- the operation of `lua_addappid`
unfoldable pub add_app_id : Bytes → ℕ → Bytes → Depots → Depots
unfolding store_key count_depot
add_app_id file depot key d =
    let keyed = record d { depot_keys = store_key depot key d.depot_keys } in
    let given = or_else (get file d.file_depots) [] in
    if is_unnamed file
    then keyed
    else if member depot given
    then keyed
    else count_depot file depot given keyed

-- the body of the loop of `RebuildManifestOverride`: the pin of a file for the depot and its
-- sequence, against the best so far
abbrev pub better :
    Option ManifestOverride
    → Option ℕ
    → Option (ℕ × ManifestOverride)
    → Option (ℕ × ManifestOverride)
better none seq best = best
better (some pin) none best = best
better (some pin) (some seq) none = some (seq, pin)
better (some pin) (some seq) (some (best_seq, best_pin)) =
    if ltb best_seq seq then some (seq, pin) else some (best_seq, best_pin)

unfoldable pub best_override :
    ℕ
    → List (Bytes × ℕ)
    → List (Bytes × List (ℕ × ManifestOverride))
    → Option (ℕ × ManifestOverride)
    → Option (ℕ × ManifestOverride)
best_override depot sequence [] best = best
best_override depot sequence ((file, overrides) ∷ files) best =
    best_override depot sequence files (better (get depot overrides) (get file sequence) best)

abbrev pub activate :
    ℕ → Option (ℕ × ManifestOverride) → List (ℕ × ManifestOverride) → List (ℕ × ManifestOverride)
activate depot none active = erase depot active
activate depot (some (seq, pin)) active = put depot pin active

unfoldable pub rebuild_manifest_override : ℕ → Pins → Pins
unfolding best_override
rebuild_manifest_override depot p = record {
  manifest_overrides =
      activate depot (best_override depot p.parse_sequence p.file_overrides none)
        p.manifest_overrides;
  file_overrides = p.file_overrides;
  parse_sequence = p.parse_sequence;
  next_sequence = p.next_sequence;
}

-- the operation of `lua_setManifestid`
unfoldable pub set_manifest_id : Bytes → ℕ → ManifestOverride → Pins → Pins
unfolding rebuild_manifest_override
set_manifest_id file depot pin p =
    if is_unnamed file
    then record p { manifest_overrides = put depot pin p.manifest_overrides }
    else rebuild_manifest_override depot (record p {
      file_overrides =
          put file (put depot pin (or_else (get file p.file_overrides) [])) p.file_overrides;
    })

-- the operations that the functions of a script record
pub data ConfigOp : Type 0 where
  op_app_id : ℕ → Bytes → ConfigOp
  op_token : ℕ → ℕ → ConfigOp
  op_cd_key : ℕ → Bytes → ConfigOp
  op_process : Bytes → ℕ → ConfigOp
  op_denuvo : ℕ → ConfigOp
  op_eticket_url : Bytes → ConfigOp
  op_manifest : ℕ → ManifestOverride → ConfigOp
  op_stat : ℕ → ℕ → ConfigOp

abbrev pub on_depots : (Depots → Depots) → ConfigState → ConfigState
on_depots f s = record { depots = f s.depots; pins = s.pins; tables = s.tables }

abbrev pub on_pins : (Pins → Pins) → ConfigState → ConfigState
on_pins f s = record { depots = s.depots; pins = f s.pins; tables = s.tables }

abbrev pub on_tables : (Tables → Tables) → ConfigState → ConfigState
on_tables f s = record { depots = s.depots; pins = s.pins; tables = f s.tables }

unfoldable pub apply_op : Bytes → ConfigOp → ConfigState → ConfigState
unfolding add_app_id set_manifest_id
apply_op file (op_app_id depot key) s = on_depots (add_app_id file depot key) s
apply_op file (op_manifest depot pin) s = on_pins (set_manifest_id file depot pin) s
apply_op file (op_token app token) s =
    on_tables (λ t. record t { access_tokens = put app token t.access_tokens }) s
apply_op file (op_cd_key app key) s =
    on_tables (λ t. record t { legacy_cd_keys = put app key t.legacy_cd_keys }) s
apply_op file (op_process name app) s =
    on_tables (λ t. record t { process_names = put name app t.process_names }) s
apply_op file (op_denuvo app) s =
    on_tables (λ t. record t { forced_denuvo = insert app t.forced_denuvo }) s
apply_op file (op_eticket_url url) s = on_tables (λ t. record t { eticket_url = url }) s
apply_op file (op_stat app steam_id) s =
    on_tables (λ t. record t { stat_steam_ids = put app steam_id t.stat_steam_ids }) s

-- the loop of the commit
unfoldable pub apply_ops : Bytes → List ConfigOp → ConfigState → ConfigState
unfolding apply_op
apply_ops file [] s = s
apply_ops file (op ∷ ops) s = apply_ops file ops (apply_op file op s)
