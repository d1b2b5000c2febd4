-- ===== src/Package/Synced.antt =====
-- Files that come and go, and the package that the client sees.
use better_steam_tools_ameth.Base.{ℕ, ◌≡◌, Bool, false, Option, none, some, List, [], ◌∷◌}
use better_steam_tools_ameth.Base.Text.{Bytes}
use better_steam_tools_ameth.Base.Keyed.{number_key}
use better_steam_tools_ameth.LuaConfig.{is_unnamed}
use better_steam_tools_ameth.LuaConfig.Files.{System, Lua, Script}
use better_steam_tools_ameth.LuaConfig.History.{parse, unload, run_call, note_call, Given}
use better_steam_tools_ameth.Package.{Client, try_init_fake_license_once, notify_license_changed}
use better_steam_tools_ameth.Package.Vector.{copies}

-- what happens: a file changes, a file goes, the client asks and its package can be read or not,
-- and the watchers tell of a change
pub data Event : Type 0 where
  changed : Bytes → Option Script → Event
  gone : Bytes → Event
  asked : Option (List ℕ × Bool) → Event
  notified : Event

pub record World (G : Type 0) : Type 0 where
  pub system : System G
  pub app_ids : List ℕ
  pub is_injected : Bool

abbrev pub client : {G : Type 0} → World G → Client
client w = record { app_ids = w.app_ids; is_injected = w.is_injected; config = w.system.config }

abbrev pub with_client : {G : Type 0} → World G → Client → World G
with_client w c = record {
  system = record w.system { config = c.config };
  app_ids = c.app_ids;
  is_injected = c.is_injected;
}

module _ {G : Type 0} (lua : Lua G) (grow : List ℕ → ℕ → Bool) (mark : Bool) where
  unfoldable pub happen : Event → World G → World G
  unfolding run_call try_init_fake_license_once notify_license_changed
  happen (changed file script) w = record w { system = run_call lua (parse file script) w.system }
  happen (gone file) w = record w { system = run_call lua (unload file) w.system }
  happen (asked info) w = with_client w (try_init_fake_license_once grow mark info (client w))
  happen notified w = with_client w (notify_license_changed grow mark (client w)).0

  unfoldable pub happens : List Event → World G → World G
  unfolding happen
  happens [] w = w
  happens (event ∷ events) w = happens events (happen event w)

module _ {G : Type 0} (lua : Lua G) where
  -- what the files have given after it
  unfoldable pub note : Event → Given G → Given G
  unfolding note_call
  note (changed file script) m = note_call lua (parse file script) m
  note (gone file) m = note_call lua (unload file) m
  note (asked info) m = m
  note notified m = m

  unfoldable pub notes : List Event → Given G → Given G
  unfolding note
  notes [] m = m
  notes (event ∷ events) m = notes events (note event m)

-- the files have names, and no package of the client held the id by itself
unfoldable pub IsPlain : ℕ → Event → Type 0
IsPlain x (changed file script) = is_unnamed file ≡ false
IsPlain x (gone file) = Unit
IsPlain x (asked none) = Unit
IsPlain x (asked (some (vector, available))) = copies x vector ≡ 0
IsPlain x notified = Unit

unfoldable pub AllPlain : ℕ → List Event → Type 0
unfolding IsPlain
AllPlain x [] = Unit
AllPlain x (event ∷ events) = IsPlain x event × AllPlain x events
