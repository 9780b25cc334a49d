-- ===== src/Http/Router/Laws.antt =====
-- A route that is added serves what no earlier route serves.
use mlxd.Base.{
  ◌≤◌, ◌≡◌, refl, Bool, ◌&&◌, ◌||◌, Option, none, some, List, [], ◌∷◌, ◌++◌, length, length-append,
  ◌==◌, if_elim, if◌then◌else◌, arith, Bytes, bytes_eq,
}
use mathlib.Core.Path.{subst}
use mlxd.Http.Router.{
  Route, Router, http_router_add, match_in, http_router_match, path_in, http_router_path_exists,
}

-- `o` unless it is nothing.
abbrev pub or_else {ℓ} : {A : Type ℓ} → Option A → Option A → Option A
or_else none p = p
or_else (some a) p = some a

module _ {ℓ} {H : Type ℓ} where
  match_in-append :
      (rs : List (Route H)) (r : Route H) (m p : Bytes)
      → match_in (rs ++ r ∷ []) m p
        ≡ or_else
            (match_in rs m p)
            (if bytes_eq r.method m && bytes_eq r.path p then some r.fn else none)
  unfolding match_in
  match_in-append [] r m p = refl
  match_in-append (x ∷ rs) r m p = ground (arith, match_in-append rs r m p)

  path_in-append :
      (rs : List (Route H)) (r : Route H) (p : Bytes)
      → path_in (rs ++ r ∷ []) p ≡ (path_in rs p || bytes_eq r.path p)
  unfolding path_in
  path_in-append [] r p = ground arith
  path_in-append (x ∷ rs) r p = ground (arith, path_in-append rs r p)

  Adds : Router H → Route H → Option (Router H) → Type ℓ
  Adds r x none = Unit
  Adds r x (some r') =
      (r'.routes ≡ r.routes ++ x ∷ []) × (length r.routes ≤ r.cap → length r'.routes ≤ r'.cap)

  add-Adds :
      (grow : Bool) (r : Router H) (m p : Bytes) (h : H)
      → Adds r (record { method = m; path = p; fn = h }) (http_router_add grow r m p h)
  unfolding http_router_add Adds
  add-Adds grow r m p h =
      let x : Route H = record { method = m; path = p; fn = h } in
      if_elim (Adds r x) (length r.routes == r.cap)
        (λ e.
          if_elim (Adds r x) grow
            (λ _. (refl, λ k. ground (arith, length-append r.routes (x ∷ [])))) (λ _. tt))
        (λ e. (refl, λ k. ground (arith, length-append r.routes (x ∷ []))))

  -- What a router serves after a route has been added: what it served before, and the new handler for
  -- the new route's method and path if nothing served them; and its paths are the old and the new one.
  -- The table stays within its capacity.
  pub add_route :
      (grow : Bool) (r r' : Router H) (m p : Bytes) (h : H)
      → http_router_add grow r m p h ≡ some r'
      → ((m' p' : Bytes)
          → http_router_match r' m' p'
            ≡ or_else
                (http_router_match r m' p')
                (if bytes_eq m m' && bytes_eq p p' then some h else none))
        × ((p' : Bytes)
            → http_router_path_exists r' p' ≡ (http_router_path_exists r p' || bytes_eq p p'))
        × (length r.routes ≤ r.cap → length r'.routes ≤ r'.cap)
  unfolding http_router_match http_router_path_exists Adds
  add_route grow r r' m p h e =
      let x : Route H = record { method = m; path = p; fn = h } in
      let (same, fits) = subst (Adds r x) e (add-Adds grow r m p h) in
      (
        λ m' p'. rw same (match_in-append r.routes x m' p'),
        λ p'. rw same (path_in-append r.routes x p'),
        fits,
      )
