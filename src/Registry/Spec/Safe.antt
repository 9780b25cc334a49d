-- ===== src/Registry/Spec/Safe.antt =====
-- What a specifier can name.
use mathlib.Core.Path.{subst}
use mlxd.Base.{
  ℕ, ◌≤◌, ◌≡◌, ◌≢◌, ◌⊎◌, refl, sym, ap, ◌∙◌, Bool, true, false, not, ◌&&◌, ◌||◌, Bool-cases, inl,
  inr, Option, none, some, [], ◌∷◌, ◌++◌, length, length-append, ◌==◌, if_elim, arith, Bytes, codes,
}
use mlxd.Registry.Spec.{
  Spec, Env, extend, split_at, reg_path_join, reg_spec_char_ok, reg_spec_charset_ok, is_empty,
  local_at, in_home, remote, with_revision, has_slash, at_slash, reg_spec_parse, cache_name,
}

-- A name of permitted characters that is not empty.
pub record IsName (x : Bytes) : Type 0 where
  pub some_char : is_empty x ≡ false
  pub charset : reg_spec_charset_ok x ≡ true

unfoldable pub AllName : Option Bytes → Type 0
AllName none = Unit {0}
AllName (some x) = IsName x

-- A model in the cache or the Hub, or a path and nothing else.
pub record IsRemote (s : Spec) : Type 0 where
  pub org : Bytes
  pub model : Bytes
  pub has_org : s.org ≡ some org
  pub has_model : s.model ≡ some model
  pub no_path : s.local_path ≡ none
  pub org_name : IsName org
  pub model_name : IsName model
  pub revision_name : (rev : Bytes) → s.revision ≡ some rev → IsName rev

pub record IsLocal (s : Spec) : Type 0 where
  pub path : Bytes
  pub has_path : s.local_path ≡ some path
  pub no_org : s.org ≡ none
  pub no_model : s.model ≡ none
  pub no_revision : s.revision ≡ none

Sound : Option Spec → Type 0
Sound none = Unit {0}
Sound (some s) = IsRemote s ⊎ IsLocal s

local-Sound : (ok : Bool) (path : Bytes) → Sound (local_at ok path)
unfolding local_at Sound
local-Sound ok path =
    if_elim Sound ok
      (λ _. inr (record {
        path = path;
        has_path = refl;
        no_org = refl;
        no_model = refl;
        no_revision = refl;
      }))
      (λ _. tt)

home-Sound : (env : Env) (home : Option Bytes) (rest : Bytes) → Sound (in_home env home rest)
unfolding in_home
home-Sound env none rest = unfold Sound in tt
home-Sound env (some home) [] =
    if_elim Sound (is_empty home) (λ _. unfold Sound in tt) (λ _. local-Sound env.local_ok home)
home-Sound env (some home) (c ∷ path) =
    if_elim Sound (is_empty home) (λ _. unfold Sound in tt)
      (λ _.
        if_elim Sound (c == 47) (λ _. local-Sound env.local_ok (reg_path_join home path))
          (λ _. unfold Sound in tt))

remote-Sound :
    (env : Env) (org model : Bytes) (rev : Option Bytes)
    → is_empty org ≡ false
    → AllName rev
    → Sound (remote env org model rev)
unfolding remote Sound AllName
remote-Sound env org model rev h r =
    if_elim Sound (is_empty model) (λ _. tt)
      (λ m.
        if_elim Sound (not (reg_spec_charset_ok org) || not (reg_spec_charset_ok model)) (λ _. tt)
          (λ ok.
            if_elim Sound (env.org_ok && env.model_ok)
              (λ _. inl (record {
                org = org;
                model = model;
                has_org = refl;
                has_model = refl;
                no_path = refl;
                org_name = record { some_char = h; charset = ground arith };
                model_name = record { some_char = m; charset = ground arith };
                revision_name = λ x e. subst AllName e r;
              }))
              (λ _. tt)))

revision-Sound :
    (env : Env) (org after : Bytes) (o : Option (Bytes × Bytes))
    → is_empty org ≡ false
    → Sound (with_revision env org after o)
unfolding with_revision
revision-Sound env org after none h = remote-Sound env org after none h (unfold AllName in tt)
revision-Sound env org after (some (model, rev)) h =
    if_elim Sound (is_empty rev) (λ _. unfold Sound in tt)
      (λ r.
        if_elim Sound (not (reg_spec_charset_ok rev)) (λ _. unfold Sound in tt)
          (λ ok.
            if_elim Sound env.revision_ok
              (λ _.
                remote-Sound env org model (some rev) h
                  (unfold AllName in record { some_char = r; charset = ground arith }))
              (λ _. unfold Sound in tt)))

slash-Sound : (env : Env) (o : Option (Bytes × Bytes)) → Sound (at_slash env o)
unfolding at_slash
slash-Sound env none = unfold Sound in tt
slash-Sound env (some (org, after)) =
    if_elim Sound (is_empty org) (λ _. unfold Sound in tt)
      (λ h.
        if_elim Sound (has_slash (split_at 47 after)) (λ _. unfold Sound in tt)
          (λ _. revision-Sound env org after (split_at 58 after) h))

parse-Sound : (env : Env) (spec : Bytes) → Sound (reg_spec_parse env spec)
unfolding reg_spec_parse
parse-Sound env [] = unfold Sound in tt
parse-Sound env (c ∷ cs) =
    if_elim Sound (c == 126) (λ _. home-Sound env env.home cs)
      (λ _.
        if_elim Sound (c == 46 || c == 47) (λ _. local-Sound env.local_ok (c ∷ cs))
          (λ _. slash-Sound env (split_at 47 (c ∷ cs))))

-- A parsed specifier is either a path and nothing else, or it has an organisation and a model, and
-- maybe a revision, that are not empty and have only letters, digits, dots, underscores and dashes.
pub parsed-IsSpec :
    (env : Env) (spec : Bytes) (s : Spec)
    → reg_spec_parse env spec ≡ some s
    → IsRemote s ⊎ IsLocal s
parsed-IsSpec env spec s e = unfold Sound in subst Sound e (parse-Sound env spec)

clash : true ≢ false
clash e = cc

append-charset :
    (x y : Bytes)
    → reg_spec_charset_ok x ≡ true
    → reg_spec_charset_ok y ≡ true
    → reg_spec_charset_ok (x ++ y) ≡ true
unfolding reg_spec_charset_ok
append-charset [] y h k = k
append-charset (c ∷ cs) y h k = ground (arith, append-charset cs y (ground arith) k)

pub charset_avoids :
    (c : ℕ) (x : Bytes)
    → reg_spec_char_ok c ≡ false
    → reg_spec_charset_ok x ≡ true
    → split_at c x ≡ none
unfolding split_at extend reg_spec_charset_ok
charset_avoids c [] h k = refl
charset_avoids c (x ∷ xs) h k =
    let rest = charset_avoids c xs h (ground arith) in
    let other : (x == c) ≡ false = elim (Bool-cases (x == c)) [
      | inl e ↦
          let same : x ≡ c = ground arith in
          let ok : reg_spec_char_ok x ≡ true = ground arith in
          absurd (clash (sym ok ∙ ap reg_spec_char_ok same ∙ h))
      | inr e ↦ e
    ] in
    rw (other, rest) refl

name_length : (x : Bytes) → is_empty x ≡ false → 1 ≤ length x
unfolding is_empty
name_length [] h = cc
name_length (c ∷ cs) h = omega arith

pub slash_refused : reg_spec_char_ok 47 ≡ false
unfolding reg_spec_char_ok
slash_refused = refl

dashes : reg_spec_charset_ok (codes "--") ≡ true
unfolding reg_spec_charset_ok reg_spec_char_ok
dashes = refl

name_one :
    (org model : Bytes)
    → IsName org
    → IsName model
    → (split_at 47 (cache_name org model) ≡ none) × (4 ≤ length (cache_name org model))
unfolding cache_name
name_one org model o m =
    let tail = append-charset (codes "--") model dashes m.charset in
    (
      charset_avoids 47 (org ++ (codes "--" ++ model)) slash_refused
          (append-charset org (codes "--" ++ model) o.charset tail),
      omega (
        arith,
        length-append org (codes "--" ++ model),
        name_length org o.some_char,
        name_length model m.some_char,
      ),
    )

-- If a specifier is parsed into an organisation and a model, then the name of their directory in the
-- cache has no slash and at least four characters, so that it is one component of a path and neither a
-- dot nor two dots.
pub cache_name_lem :
    (env : Env) (spec : Bytes) (s : Spec) (org model : Bytes)
    → reg_spec_parse env spec ≡ some s
    → s.org ≡ some org
    → s.model ≡ some model
    → (split_at 47 (cache_name org model) ≡ none) × (4 ≤ length (cache_name org model))
cache_name_lem env spec s org model e o m = elim (parsed-IsSpec env spec s e) [
  | inl r ↦
      let p : r.org ≡ org = cc (sym r.has_org ∙ o) in
      let q : r.model ≡ model = cc (sym r.has_model ∙ m) in
      name_one org model (subst IsName p r.org_name) (subst IsName q r.model_name)
  | inr l ↦ cc (sym l.no_org ∙ o)
]
