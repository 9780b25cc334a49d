-- ===== src/Model/Tests/Maps.antt =====
-- The theorems on hash maps at concrete ones.
use mlxd.Base.{
  ℕ, ◌*◌, ◌^◌, ◌≤◌, ◌<◌, ◌≡◌, Bool, true, false, ◌&&◌, none, some, List, [], ◌∷◌, if◌then◌else◌,
  arith, Bytes, codes,
}
use mlxd.Model.TokMap.{Table, str_key, next_pow2, map_init, map_put, map_get}
use mlxd.Model.TokMap.Pow2.{next_pow2_lem}
use mlxd.Model.TokMap.Content.{IsMap}
use mlxd.Model.TokMap.Histories.{str_key-IsExact, put_all, updated, put_updates, history_gets}

next_pow2_lem_example : (t : ℕ) × (next_pow2 5 ≡ 2 ^ t) × (5 ≤ next_pow2 5) × (next_pow2 5 < 2 * 5)
next_pow2_lem_example = next_pow2_lem 5 (omega arith) (omega arith)

abbrev two_puts : List (Bool × Bytes × ℕ)
two_puts = (true, codes "he", 7) ∷ (false, codes "llo", 9) ∷ []

history_gets_example :
    (t : Table Bytes) × (bs : List Bool) × (t' : Table Bytes) × (map_init true 3 ≡ some t)
    × (put_all str_key t two_puts ≡ some (bs, t'))
    × IsMap str_key t'
    × ((y : Bytes) → map_get str_key t' y ≡ some (updated str_key (λ _. none) two_puts bs y))
history_gets_example = history_gets str_key 3 two_puts str_key-IsExact

abbrev filled : Table Bytes
filled = (history_gets str_key 3 two_puts str_key-IsExact).2

put_updates_example :
    (b : Bool) × (t' : Table Bytes) × (map_put str_key true filled (codes "he") 8 ≡ some (b, t'))
    × IsMap str_key t'
    × ((y : Bytes)
        → map_get str_key t' y
          ≡ (if b && str_key.eq (codes "he") y then some (some 8) else map_get str_key filled y))
    × (b ≡ false → map_get str_key filled (codes "he") ≡ some none)
put_updates_example =
    put_updates str_key true filled (codes "he") 8 str_key-IsExact
      (history_gets str_key 3 two_puts str_key-IsExact).5
