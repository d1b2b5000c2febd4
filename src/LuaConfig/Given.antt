-- ===== src/LuaConfig/Given.antt =====
-- What the operations of a file make it give, and what they keep of the depots.
use better_steam_tools_ameth.Base.{
  ℕ, ◌≡◌, refl, ap, Bool, false, ◌||◌, List, [], ◌∷◌, arith, inl, inr, ◌==◌, if◌then◌else◌,
  Bool-cases,
}
use better_steam_tools_ameth.Base.Text.{Bytes}
use better_steam_tools_ameth.Base.Keyed.{
  number_key, text_key, same_self, member, put, erase, get-put, erase-put,
}
use better_steam_tools_ameth.LuaConfig.{
  Depots, ConfigState, ConfigOp, op_app_id, op_token, op_cd_key, op_process, op_denuvo,
  op_eticket_url, op_manifest, op_stat, is_unnamed, count_depot, add_app_id, apply_op,
}
use better_steam_tools_ameth.LuaConfig.Count.{given}
use better_steam_tools_ameth.LuaConfig.Consistent.{IsConsistent, Notifies, Fits}
use better_steam_tools_ameth.LuaConfig.Grow.{add_app_id-IsConsistent, add_app_id-Notifies}

-- the file now gives the depot
pub add_app_id_files :
    (file : Bytes) (depot : ℕ) (key : Bytes) (d : Depots)
    → is_unnamed file ≡ false
    → (add_app_id file depot key d).file_depots ≡ (
        if member depot (given file d.file_depots)
        then d.file_depots
        else put file (depot ∷ given file d.file_depots) d.file_depots)
unfolding add_app_id count_depot
add_app_id_files file depot key d named =
    elim (Bool-cases (member depot (given file d.file_depots))) [
      | inl known ↦ rw (named, known) refl
      | inr fresh ↦ rw (named, fresh) refl
    ]

-- and the others what they gave
add_app_id_others :
    (file : Bytes) (depot : ℕ) (key : Bytes) (d : Depots)
    → is_unnamed file ≡ false
    → erase file (add_app_id file depot key d).file_depots ≡ erase file d.file_depots
add_app_id_others file depot key d named =
    let files = add_app_id_files file depot key d named in
    let ids = depot ∷ given file d.file_depots in
    rw files (ground (arith, erase-put file ids d.file_depots))

add_app_id-given :
    (x : ℕ) (file : Bytes) (depot : ℕ) (key : Bytes) (d : Depots)
    → is_unnamed file ≡ false
    → member x (given file (add_app_id file depot key d).file_depots)
      ≡ (x == depot || member x (given file d.file_depots))
unfolding member
add_app_id-given x file depot key d named =
    let files = add_app_id_files file depot key d named in
    let ids = depot ∷ given file d.file_depots in
    elim (Bool-cases (member depot (given file d.file_depots))) [
      | inl known ↦
          let files' = (rw known at files) in
          let same = ap (λ fs. member x (given file fs)) files' in
          elim (Bool-cases (x == depot)) [
            | inl e ↦
                let eq : x ≡ depot = ground arith in
                let there = ap (λ y. member y (given file d.file_depots)) eq in ground arith
            | inr e ↦ ground arith
          ]
      | inr fresh ↦
          let files' = (rw fresh at files) in
          let same = ap (λ fs. member x (given file fs)) files' in
          ground (arith, get-put file file ids d.file_depots, same_self file)
    ]

-- whether an operation gives the depot
abbrev pub op_gives : ℕ → ConfigOp → Bool
op_gives x (op_app_id depot key) = x == depot
op_gives x (op_manifest depot pin) = false
op_gives x (op_token app token) = false
op_gives x (op_cd_key app key) = false
op_gives x (op_process name app) = false
op_gives x (op_denuvo app) = false
op_gives x (op_eticket_url url) = false
op_gives x (op_stat app steam_id) = false

unfoldable pub gives : ℕ → List ConfigOp → Bool
gives x [] = false
gives x (op ∷ ops) = op_gives x op || gives x ops

-- from one state to the next, a file keeps or extends what it gives
pub record Step (file : Bytes) (op : ConfigOp) (before after : Depots) : Type 0 where
  pub consistent : IsConsistent before → Fits file before → IsConsistent after
  pub notifies : IsConsistent before → Fits file before → (x : ℕ) → Notifies before after x
  pub gives_more :
      (x : ℕ)
      → member x (given file after.file_depots)
        ≡ (op_gives x op || member x (given file before.file_depots))
  pub others : erase file after.file_depots ≡ erase file before.file_depots

same-Step :
    (file : Bytes) (op : ConfigOp) (d : Depots)
    → ((x : ℕ) → op_gives x op ≡ false)
    → Step file op d d
same-Step file op d h = record {
  consistent = λ c f. c;
  notifies = λ c f x. record { told = inl refl; waits = λ w. w };
  gives_more = λ x. let no = h x in ground arith;
  others = refl;
}

pub apply_op-Step :
    (file : Bytes) (op : ConfigOp) (s : ConfigState)
    → is_unnamed file ≡ false
    → Step file op s.depots (apply_op file op s).depots
unfolding apply_op
apply_op-Step file (op_app_id depot key) s named = record {
  consistent = λ c f. add_app_id-IsConsistent file depot key s.depots c f named;
  notifies = λ c f x. add_app_id-Notifies file depot key s.depots c f named x;
  gives_more = λ x. add_app_id-given x file depot key s.depots named;
  others = add_app_id_others file depot key s.depots named;
}
apply_op-Step file (op_manifest depot pin) s named =
    same-Step file (op_manifest depot pin) s.depots (λ x. refl)
apply_op-Step file (op_token app token) s named =
    same-Step file (op_token app token) s.depots (λ x. refl)
apply_op-Step file (op_cd_key app key) s named =
    same-Step file (op_cd_key app key) s.depots (λ x. refl)
apply_op-Step file (op_process name app) s named =
    same-Step file (op_process name app) s.depots (λ x. refl)
apply_op-Step file (op_denuvo app) s named = same-Step file (op_denuvo app) s.depots (λ x. refl)
apply_op-Step file (op_eticket_url url) s named =
    same-Step file (op_eticket_url url) s.depots (λ x. refl)
apply_op-Step file (op_stat app steam_id) s named =
    same-Step file (op_stat app steam_id) s.depots (λ x. refl)
