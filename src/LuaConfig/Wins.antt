-- ===== src/LuaConfig/Wins.antt =====
-- The pins of the file that is committed last are in force.
use better_steam_tools_ameth.Base.{
  ℕ, ◌<◌, ◌≡◌, refl, sym, ap, ◌∙◌, subst, false, Option, none, some, List, [], ◌∷◌, arith, inl, inr,
  ◌==◌, ltb, if◌then◌else◌, Bool-cases,
}
use better_steam_tools_ameth.Base.Text.{Bytes, bytes_eq, bytes_eq→eq}
use better_steam_tools_ameth.Base.Keyed.{
  number_key, text_key, same_self, same_flip, get, has, put, IsMap, get-put,
}
use better_steam_tools_ameth.LuaConfig.{
  Pins, ManifestOverride, ConfigState, ConfigOp, op_app_id, op_token, op_cd_key, op_process,
  op_denuvo, op_eticket_url, op_manifest, op_stat, or_else, is_unnamed, best_override, better,
  rebuild_manifest_override, set_manifest_id, apply_op, apply_ops,
}
use better_steam_tools_ameth.LuaConfig.Loads.{set_manifest_id_files}

-- the last pin of the depot among the operations
abbrev pub op_pin : ℕ → ConfigOp → Option ManifestOverride → Option ManifestOverride
op_pin x (op_manifest depot pin) before = if x == depot then some pin else before
op_pin x (op_app_id depot key) before = before
op_pin x (op_token app token) before = before
op_pin x (op_cd_key app key) before = before
op_pin x (op_process name app) before = before
op_pin x (op_denuvo app) before = before
op_pin x (op_eticket_url url) before = before
op_pin x (op_stat app steam_id) before = before

unfoldable pub last_pin : ℕ → List ConfigOp → Option ManifestOverride → Option ManifestOverride
last_pin x [] before = before
last_pin x (op ∷ ops) before = last_pin x ops (op_pin x op before)

abbrev pub own_pin : ℕ → Bytes → Pins → Option ManifestOverride
own_pin x file p = get x (or_else (get file p.file_overrides) [])

own_pin-set :
    (x : ℕ) (file : Bytes) (depot : ℕ) (pin : ManifestOverride) (p : Pins)
    → is_unnamed file ≡ false
    → own_pin x file (set_manifest_id file depot pin p)
      ≡ (if x == depot then some pin else own_pin x file p)
own_pin-set x file depot pin p named =
    let pins = put depot pin (or_else (get file p.file_overrides) []) in
    let files = set_manifest_id_files file depot pin p named in
    let mine : get file (put file pins p.file_overrides) ≡ some pins =
      ground (arith, get-put file file pins p.file_overrides, same_self file) in
    rw (files, mine) (get-put x depot pin (or_else (get file p.file_overrides) []))

apply_op-own_pin :
    (x : ℕ) (file : Bytes) (op : ConfigOp) (s : ConfigState)
    → is_unnamed file ≡ false
    → own_pin x file (apply_op file op s).pins ≡ op_pin x op (own_pin x file s.pins)
unfolding apply_op
apply_op-own_pin x file (op_app_id depot key) s named = refl
apply_op-own_pin x file (op_manifest depot pin) s named = own_pin-set x file depot pin s.pins named
apply_op-own_pin x file (op_token app token) s named = refl
apply_op-own_pin x file (op_cd_key app key) s named = refl
apply_op-own_pin x file (op_process name app) s named = refl
apply_op-own_pin x file (op_denuvo app) s named = refl
apply_op-own_pin x file (op_eticket_url url) s named = refl
apply_op-own_pin x file (op_stat app steam_id) s named = refl

apply_op_times :
    (file : Bytes) (op : ConfigOp) (s : ConfigState)
    → is_unnamed file ≡ false
    → (apply_op file op s).pins.parse_sequence ≡ s.pins.parse_sequence
unfolding apply_op set_manifest_id rebuild_manifest_override
apply_op_times file (op_app_id depot key) s named = refl
apply_op_times file (op_manifest depot pin) s named = rw named refl
apply_op_times file (op_token app token) s named = refl
apply_op_times file (op_cd_key app key) s named = refl
apply_op_times file (op_process name app) s named = refl
apply_op_times file (op_denuvo app) s named = refl
apply_op_times file (op_eticket_url url) s named = refl
apply_op_times file (op_stat app steam_id) s named = refl

pub apply_ops-own_pin :
    (x : ℕ) (file : Bytes) (ops : List ConfigOp) (s : ConfigState)
    → is_unnamed file ≡ false
    → own_pin x file (apply_ops file ops s).pins ≡ last_pin x ops (own_pin x file s.pins)
unfolding apply_ops last_pin
apply_ops-own_pin x file [] s named = refl
apply_ops-own_pin x file (op ∷ ops) s named =
    apply_ops-own_pin x file ops (apply_op file op s) named
    ∙ ap (last_pin x ops) (apply_op-own_pin x file op s named)

pub apply_ops_times :
    (file : Bytes) (ops : List ConfigOp) (s : ConfigState)
    → is_unnamed file ≡ false
    → (apply_ops file ops s).pins.parse_sequence ≡ s.pins.parse_sequence
unfolding apply_ops
apply_ops_times file [] s named = refl
apply_ops_times file (op ∷ ops) s named =
    apply_ops_times file ops (apply_op file op s) named ∙ apply_op_times file op s named

-- the best so far is older than `n`
abbrev pub IsBelow : ℕ → Option (ℕ × ManifestOverride) → Type 0
IsBelow n none = Unit
IsBelow n (some (seq, pin)) = seq < n

better-IsBelow :
    (n : ℕ) (pin : Option ManifestOverride) (seq : Option ℕ) (best : Option (ℕ × ManifestOverride))
    → ((m : ℕ) → seq ≡ some m → m < n)
    → IsBelow n best
    → IsBelow n (better pin seq best)
better-IsBelow n none seq best h b = b
better-IsBelow n (some pin) none best h b = b
better-IsBelow n (some pin) (some m) none h b = h m refl
better-IsBelow n (some pin) (some m) (some (seq, old)) h b = elim (Bool-cases (ltb seq m)) [
  | inl e ↦ rw e (h m refl)
  | inr e ↦ rw e b
]

better_above :
    (n : ℕ) (new : ManifestOverride) (pin : Option ManifestOverride) (seq : Option ℕ)
    → ((m : ℕ) → seq ≡ some m → m < n)
    → better pin seq (some (n, new)) ≡ some (n, new)
better_above n new none seq h = refl
better_above n new (some pin) none h = refl
better_above n new (some pin) (some m) h = let l = h m refl in ground arith

better_first :
    (n : ℕ) (new : ManifestOverride) (best : Option (ℕ × ManifestOverride))
    → IsBelow n best
    → better (some new) (some n) best ≡ some (n, new)
better_first n new none b = refl
better_first n new (some (seq, old)) b = ground arith

module _ (x : ℕ) (file : Bytes) (n : ℕ) (new : ManifestOverride) (seqs : List (Bytes × ℕ))
    (newer : (f : Bytes) (m : ℕ) → bytes_eq f file ≡ false → get f seqs ≡ some m → m < n) where
  -- the files behind it are older
  best_override_behind :
      (files : List (Bytes × List (ℕ × ManifestOverride)))
      → has file files ≡ false
      → best_override x seqs files (some (n, new)) ≡ some (n, new)
  unfolding best_override has
  best_override_behind [] gone = refl
  best_override_behind ((f, pins) ∷ files) gone =
      let flip : bytes_eq f file ≡ bytes_eq file f = same_flip f file in
      let apart : bytes_eq f file ≡ false = ground arith in
      rw (better_above n new (get x pins) (get f seqs) (λ m e. newer f m apart e))
        (best_override_behind files (ground arith))

  pub best_override_newest :
      (files : List (Bytes × List (ℕ × ManifestOverride))) (best : Option (ℕ × ManifestOverride))
      → IsMap files
      → get x (or_else (get file files) []) ≡ some new
      → get file seqs ≡ some n
      → IsBelow n best
      → best_override x seqs files best ≡ some (n, new)
  unfolding best_override get
  best_override_newest [] best h g t b = absurd (ground arith)
  best_override_newest ((f, pins) ∷ files) best h g t b = elim (Bool-cases (bytes_eq file f)) [
    | inl e ↦
        let mine : get x pins ≡ some new = (rw e at g) in
        let same = bytes_eq→eq file f e in
        let time = subst (λ g. get g seqs ≡ some n) same t in
        let gone = subst (λ g. has g files ≡ false) (sym same) h.0 in
        rw (mine, time, better_first n new best b) (best_override_behind files gone)
    | inr e ↦
        let flip : bytes_eq f file ≡ bytes_eq file f = same_flip f file in
        let apart : bytes_eq f file ≡ false = ground arith in
        let g' = (rw e at g) in
        best_override_newest files (better (get x pins) (get f seqs) best) h.1 g' t
          (better-IsBelow n (get x pins) (get f seqs) best (λ m e. newer f m apart e) b)
  ]
