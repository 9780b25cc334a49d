-- ===== src/Registry/Names/Ids.antt =====
-- The id of a model is read back from the name of its directory.
use mlxd.Base.{
  ℕ, ◌≡◌, ◌≢◌, refl, sym, ap, ◌∙◌, true, false, Bool-cases, inl, inr, Option, none, some, [], ◌∷◌,
  ◌++◌, length, drop, Bytes, codes,
}
use mlxd.Registry.Spec.{extend, is_empty, cache_name}
use mlxd.Registry.Names.{begins, split_on, id_at, id_from_dirname, hub_id_from_dirname}

split_here :
    (p : Bytes) (x : ℕ) (xs : Bytes) → begins p (x ∷ xs) ≡ true → split_on p (x ∷ xs) ≢ none
unfolding split_on
split_here p x xs e h =
    let found : split_on p (x ∷ xs) ≡ some ([], drop (length p) (x ∷ xs)) = rw e refl in
    cc (sym found ∙ h)

pub split_later :
    (p : Bytes) (x : ℕ) (xs : Bytes)
    → begins p (x ∷ xs) ≡ false
    → split_on p (x ∷ xs) ≡ extend x (split_on p xs)
unfolding split_on
split_later p x xs e = rw e refl

pub extend-none : (x : ℕ) (o : Option (Bytes × Bytes)) → extend x o ≡ none → o ≡ none
unfolding extend
extend-none x none h = refl
extend-none x (some p) h = cc

-- What is not found in a text is neither at its start nor behind its first byte.
pub not_found :
    (p : Bytes) (x : ℕ) (xs : Bytes)
    → split_on p (x ∷ xs) ≡ none
    → (begins p (x ∷ xs) ≡ false) × (split_on p xs ≡ none)
not_found p x xs h = elim (Bool-cases (begins p (x ∷ xs))) [
  | inl e ↦ absurd (split_here p x xs e h)
  | inr e ↦ (e, extend-none x (split_on p xs) (sym (split_later p x xs e) ∙ h))
]

-- What stands before the first two dashes, in a text with no two dashes and no dash at its end.
split_dashes :
    (org model : Bytes)
    → split_on (codes "--") (org ++ (45 ∷ [])) ≡ none
    → split_on (codes "--") (org ++ (45 ∷ 45 ∷ model)) ≡ some (org, model)
unfolding begins extend
split_dashes [] model h = unfold split_on in refl
split_dashes (x ∷ []) model h =
    let (e, rest) = not_found (codes "--") x (45 ∷ []) h in
    split_later (codes "--") x (45 ∷ 45 ∷ model) e ∙ ap (extend x) (split_dashes [] model rest)
split_dashes (x ∷ y ∷ org) model h =
    let (e, rest) = not_found (codes "--") x (y ∷ (org ++ (45 ∷ []))) h in
    split_later (codes "--") x (y ∷ (org ++ (45 ∷ 45 ∷ model))) e
    ∙ ap (extend x) (split_dashes (y ∷ org) model rest)

id_whole :
    (org model : Bytes)
    → is_empty org ≡ false
    → is_empty model ≡ false
    → id_at true (some (org, model)) ≡ some (org ++ (47 ∷ model))
unfolding id_at
id_whole org model o m = rw (o, m) refl

-- If an organisation and a model are not empty, and the organisation has no two dashes in a row and
-- none at its end: the id that is read from the model's directory in the cache is the specifier
-- `org/model`, and so is the id that is read from its directory in the cache of the Hub.
pub id-cache_name :
    (org model : Bytes)
    → is_empty org ≡ false
    → is_empty model ≡ false
    → split_on (codes "--") (org ++ (45 ∷ [])) ≡ none
    → (id_from_dirname true (cache_name org model) ≡ some (org ++ (47 ∷ model)))
      × (hub_id_from_dirname true (codes "models--" ++ cache_name org model)
          ≡ some (org ++ (47 ∷ model)))
unfolding id_from_dirname hub_id_from_dirname cache_name begins
id-cache_name org model o m h =
    let e = split_dashes org model h in
    let r = id_whole org model o m in (ap (id_at true) e ∙ r, ap (id_at true) e ∙ r)
