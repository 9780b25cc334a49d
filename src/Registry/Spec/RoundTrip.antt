-- ===== src/Registry/Spec/RoundTrip.antt =====
-- A specifier that is written out is parsed back.
use mlxd.Base.{
  ℕ, ◌≡◌, ◌≢◌, refl, sym, ap, ◌∙◌, true, false, Bool-cases, inl, inr, Option, none, some, [], ◌∷◌,
  ◌++◌, ◌==◌, arith, Bytes,
}
use mlxd.Registry.Spec.{
  Spec, Env, extend, split_at, reg_spec_char_ok, reg_spec_charset_ok, is_empty, remote,
  with_revision, has_slash, at_slash, reg_spec_parse,
}
use mlxd.Registry.Spec.Safe.{IsName, AllName, charset_avoids, slash_refused}

-- `org/model`, with `:revision` if there is one.
behind_slash : Bytes → Option Bytes → Bytes
behind_slash model none = model
behind_slash model (some rev) = model ++ (58 ∷ rev)

pub written : Bytes → Bytes → Option Bytes → Bytes
unfolding behind_slash
written org model rev = org ++ (47 ∷ behind_slash model rev)

-- Every allocation of the parser succeeds.
pub record HasMemory (env : Env) : Type 0 where
  pub revision_ok : env.revision_ok ≡ true
  pub org_ok : env.org_ok ≡ true
  pub model_ok : env.model_ok ≡ true

extend-none : (x : ℕ) (o : Option (Bytes × Bytes)) → extend x o ≡ none → o ≡ none
unfolding extend
extend-none x none h = refl
extend-none x (some p) h = cc

split_other :
    (c x : ℕ) (xs : Bytes) → (x == c) ≡ false → split_at c (x ∷ xs) ≡ extend x (split_at c xs)
unfolding split_at
split_other c x xs e = rw e refl

split_first : (c : ℕ) (x y : Bytes) → split_at c x ≡ none → split_at c (x ++ (c ∷ y)) ≡ some (x, y)
unfolding split_at
split_first c [] y h = ground arith
split_first c (x ∷ xs) y h = elim (Bool-cases (x == c)) [
  | inl e ↦ let p : split_at c (x ∷ xs) ≡ some ([], xs) = rw e refl in cc (sym p ∙ h)
  | inr e ↦
      let p = split_other c x xs e in
      let rest = split_first c xs y (extend-none x (split_at c xs) (sym p ∙ h)) in
      rw (e, rest) (unfold extend in refl)
]

append-avoids :
    (c : ℕ) (x y : Bytes) → split_at c x ≡ none → split_at c y ≡ none → split_at c (x ++ y) ≡ none
unfolding split_at
append-avoids c [] y h k = k
append-avoids c (x ∷ xs) y h k = elim (Bool-cases (x == c)) [
  | inl e ↦ let p : split_at c (x ∷ xs) ≡ some ([], xs) = rw e refl in cc (sym p ∙ h)
  | inr e ↦
      let p = split_other c x xs e in
      let rest = append-avoids c xs y (extend-none x (split_at c xs) (sym p ∙ h)) k in
      rw (e, rest) (unfold extend in refl)
]

colon_refused : reg_spec_char_ok 58 ≡ false
unfolding reg_spec_char_ok
colon_refused = refl

tilde_refused : reg_spec_char_ok 126 ≡ false
unfolding reg_spec_char_ok
tilde_refused = refl

refused_other :
    (c d : ℕ) → reg_spec_char_ok c ≡ true → reg_spec_char_ok d ≡ false → (c == d) ≡ false
refused_other c d h k = elim (Bool-cases (c == d)) [
  | inl e ↦ let same : c ≡ d = ground arith in cc (sym h ∙ ap reg_spec_char_ok same ∙ k)
  | inr e ↦ e
]

module _ (env : Env) (mem : HasMemory env) where
  whole : Bytes → Bytes → Option Bytes → Spec
  whole org model rev = record {
    org = some org;
    model = some model;
    revision = rev;
    local_path = none;
  }

  remote_whole :
      (org model : Bytes) (rev : Option Bytes)
      → IsName org
      → IsName model
      → remote env org model rev ≡ some (whole org model rev)
  unfolding remote whole
  remote_whole org model rev o m =
      rw (m.some_char, o.charset, m.charset, mem.org_ok, mem.model_ok) refl

  with_whole :
      (org model : Bytes) (rev : Option Bytes)
      → IsName org
      → IsName model
      → AllName rev
      → with_revision env org (behind_slash model rev) (split_at 58 (behind_slash model rev))
        ≡ some (whole org model rev)
  unfolding with_revision behind_slash AllName
  with_whole org model none o m r =
      rw (charset_avoids 58 model colon_refused m.charset) (remote_whole org model none o m)
  with_whole org model (some rev) o m r =
      rw (split_first 58 model rev (charset_avoids 58 model colon_refused m.charset))
        (rw (r.some_char, r.charset, mem.revision_ok) (remote_whole org model (some rev) o m))

  one_slash :
      (model : Bytes) (rev : Option Bytes)
      → IsName model
      → AllName rev
      → split_at 47 (behind_slash model rev) ≡ none
  unfolding behind_slash AllName split_at extend
  one_slash model none m r = charset_avoids 47 model slash_refused m.charset
  one_slash model (some rev) m r =
      append-avoids 47 model (58 ∷ rev) (charset_avoids 47 model slash_refused m.charset)
        (rw (charset_avoids 47 rev slash_refused r.charset) refl)

  -- If every allocation succeeds: the text of an organisation, which does not begin with a dot, and a
  -- model, with or without a revision, each of permitted characters and not empty, is parsed into them.
  pub parse-written :
      (c : ℕ) (cs model : Bytes) (rev : Option Bytes)
      → IsName (c ∷ cs)
      → c ≢ 46
      → IsName model
      → AllName rev
      → reg_spec_parse env (written (c ∷ cs) model rev)
        ≡ some
            (record { org = some (c ∷ cs); model = some model; revision = rev; local_path = none })
  unfolding reg_spec_parse written whole reg_spec_charset_ok
  parse-written c cs model rev o ne m r =
      let ok : reg_spec_char_ok c ≡ true = ground (arith, o.charset) in
      let s : split_at 47 (c ∷ (cs ++ (47 ∷ behind_slash model rev)))
          ≡ some (c ∷ cs, behind_slash model rev) =
        split_first 47 (c ∷ cs) (behind_slash model rev)
          (charset_avoids 47 (c ∷ cs) slash_refused o.charset) in
      let dot : (c == 46) ≡ false = ground arith in
      let no_slash : (c == 47) ≡ false = refused_other c 47 ok slash_refused in
      let s' : extend c (split_at 47 (cs ++ (47 ∷ behind_slash model rev)))
          ≡ some (c ∷ cs, behind_slash model rev) =
        sym (split_other 47 c (cs ++ (47 ∷ behind_slash model rev)) no_slash) ∙ s in
      rw (refused_other c 126 ok tilde_refused, dot, no_slash, s')
        (unfold at_slash is_empty has_slash in
          rw (one_slash model rev m r) (with_whole (c ∷ cs) model rev o m r))
