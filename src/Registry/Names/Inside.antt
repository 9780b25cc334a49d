-- ===== src/Registry/Names/Inside.antt =====
-- A file that is downloaded stays in the directory of its model.
use mathlib.Core.Path.{subst}
use mlxd.Base.{
  ℕ, suc, ◌≡◌, ◌≢◌, refl, sym, ◌∙◌, Bool, true, false, ◌&&◌, Bool-cases, inl, inr, Option, none,
  some, List, [], ◌∷◌, ◌==◌, if_elim, if◌then◌else◌, arith, Bytes, codes, ℤ,
}
use mlxd.Registry.Names.{
  begins, split_on, is_found, reg_rfilename_safe, reg_file_wanted, Item, wanted_name, keep_item,
  keep_or_skip, plan_from, reg_parse_file_plan,
}
use mlxd.Registry.Names.Ids.{not_found}

clash : true ≢ false
clash e = cc

-- The components of a path: the first and the others.
pub first_part : Bytes → Bytes
first_part [] = []
first_part (c ∷ cs) = if c == 47 then [] else c ∷ first_part cs

pub other_parts : Bytes → List Bytes
unfolding first_part
other_parts [] = []
other_parts (c ∷ cs) = if c == 47 then first_part cs ∷ other_parts cs else other_parts cs

-- No component goes up.
pub NoneUp : List Bytes → Type 0
NoneUp [] = Unit {0}
NoneUp (p ∷ ps) = (p ≢ codes "..") × NoneUp ps

-- A path that does not start at the root and has no component `..`.
pub record IsInside (path : Bytes) : Type 0 where
  pub some_char : path ≢ []
  pub relative : begins (codes "/") path ≡ false
  pub none_up : NoneUp (first_part path ∷ other_parts path)

part-cons : (c : ℕ) (cs : Bytes) → (c == 47) ≡ false → first_part (c ∷ cs) ≡ c ∷ first_part cs
unfolding first_part
part-cons c cs e = rw e refl

part-slash : (c : ℕ) (cs : Bytes) → (c == 47) ≡ true → first_part (c ∷ cs) ≡ []
unfolding first_part
part-slash c cs e = rw e refl

-- A path begins with its first component.
begins-first_part : (p cs : Bytes) → first_part cs ≡ p → begins p cs ≡ true
unfolding begins
begins-first_part [] cs h = refl
begins-first_part (q ∷ qs) [] h = unfold first_part in cc h
begins-first_part (q ∷ qs) (c ∷ cs) h = elim (Bool-cases (c == 47)) [
  | inl e ↦ cc (sym (part-slash c cs e) ∙ h)
  | inr e ↦
      let w : c ∷ first_part cs ≡ q ∷ qs = sym (part-cons c cs e) ∙ h in
      let same : c ≡ q = cc w in
      let rest : first_part cs ≡ qs = cc w in
      let ih = begins-first_part qs cs rest in ground (arith, same, ih)
]

none_up : (cs : Bytes) → split_on (codes "..") cs ≡ none → NoneUp (first_part cs ∷ other_parts cs)
unfolding NoneUp other_parts
none_up [] h = unfold first_part in ((λ e. cc), tt)
none_up (c ∷ cs) h =
    let (e, rest) = not_found (codes "..") c cs h in
    let (head_ok, tail_ok) = none_up cs rest in
    (
      λ up. clash (sym (begins-first_part (codes "..") (c ∷ cs) up) ∙ e),
      if_elim NoneUp (c == 47) (λ _. (head_ok, tail_ok)) (λ _. tail_ok),
    )

not_found_none : (o : Option (Bytes × Bytes)) → is_found o ≡ false → o ≡ none
unfolding is_found
not_found_none none h = refl
not_found_none (some p) h = cc

safe-IsInside : (name : Bytes) → reg_rfilename_safe name ≡ true → IsInside name
unfolding reg_rfilename_safe
safe-IsInside [] h = cc
safe-IsInside (c ∷ cs) h = record {
  some_char = λ e. cc;
  relative = unfold begins in ground (arith, h);
  none_up = none_up (c ∷ cs) (not_found_none (split_on (codes "..") (c ∷ cs)) (ground (arith, h)));
}

-- All planned files, with what was asked of them.
pub Planned : List (Bytes × ℤ) → Type 0
Planned [] = Unit {0}
Planned ((name, size) ∷ files) = IsInside name × (reg_file_wanted name ≡ true) × Planned files

AllPlanned : Option (List (Bytes × ℤ)) → Type 0
AllPlanned none = Unit {0}
AllPlanned (some files) = Planned files

keep-All :
    (dup_ok : Bool) (name : Bytes) (size : Option ℤ) (o : Option (List (Bytes × ℤ)))
    → IsInside name
    → reg_file_wanted name ≡ true
    → AllPlanned o
    → AllPlanned (keep_item dup_ok name size o)
unfolding keep_item AllPlanned Planned
keep-All dup_ok name size none i w h = tt
keep-All dup_ok name size (some files) i w h = if_elim AllPlanned dup_ok (λ _. (i, w, h)) (λ _. tt)

item-All :
    (dup_ok : Bool) (rf : Option Bytes) (size : Option ℤ) (skipped kept : Option (List (Bytes × ℤ)))
    → AllPlanned skipped
    → AllPlanned kept
    → AllPlanned (keep_or_skip dup_ok size skipped kept (wanted_name rf))
unfolding wanted_name keep_or_skip
item-All dup_ok none size skipped kept h k = h
item-All dup_ok (some name) size skipped kept h k =
    if_elim (λ o. AllPlanned (keep_or_skip dup_ok size skipped kept o))
      (reg_rfilename_safe name && reg_file_wanted name)
      (λ ok.
        keep-All dup_ok name size kept (safe-IsInside name (ground (arith, ok)))
          (ground (arith, ok)) k)
      (λ _. h)

plan-All :
    (dups : ℕ → Bool) (count : ℕ) (items : List Item) → AllPlanned (plan_from dups count items)
unfolding plan_from
plan-All dups count [] = unfold AllPlanned Planned in tt
plan-All dups count (item ∷ items) =
    item-All (dups count) item.rfilename item.size _ _ (plan-All dups count items)
      (plan-All dups (suc count) items)

-- Whatever the Hub lists, each file that is planned for a download is wanted, its path is relative and
-- not empty, and no component of its path is `..`.
pub plan-Planned :
    (dups : ℕ → Bool) (siblings : List Item) (files : List (Bytes × ℤ))
    → reg_parse_file_plan dups siblings ≡ some files
    → Planned files
unfolding reg_parse_file_plan
plan-Planned dups siblings files e =
    unfold AllPlanned in subst AllPlanned e (plan-All dups 0 siblings)
