-- ===== src/Http/Router.antt =====
-- http/router.c, the table of routes.
pub mod Laws
use mlxd.Base.{
  ℕ, suc, ◌+◌, ◌*◌, Bool, true, false, ◌&&◌, Option, none, some, List, [], ◌∷◌, ◌++◌, length, ◌==◌,
  if◌then◌else◌, Bytes, bytes_eq,
}

-- `struct route`. A handler and its context are one value.
pub record Route {ℓ} (H : Type ℓ) : Type ℓ where
  pub method : Bytes
  pub path : Bytes
  pub fn : H

-- `struct http_router`; `n` is the length of the list.
pub record Router {ℓ} (H : Type ℓ) : Type ℓ where
  pub routes : List (Route H)
  pub cap : ℕ

module _ {ℓ} {H : Type ℓ} where
  -- `http_router_create`
  unfoldable pub http_router_create : Router H
  http_router_create = record { routes = []; cap = 0 }

  -- `http_router_add`, with the outcome of `realloc`; none is -1.
  unfoldable pub http_router_add : Bool → Router H → Bytes → Bytes → H → Option (Router H)
  http_router_add grow r method path fn =
      let route : Route H = record { method = method; path = path; fn = fn } in
      if length r.routes == r.cap
      then if grow
        then some
            (record { routes = r.routes ++ route ∷ []; cap = if r.cap == 0 then 4 else r.cap * 2 })
        else none
      else some (record r { routes = r.routes ++ route ∷ [] })

  match_in : List (Route H) → Bytes → Bytes → Option H
  unfolding bytes_eq
  match_in [] method path = none
  match_in (r ∷ rs) method path =
      if bytes_eq r.method method && bytes_eq r.path path
      then some r.fn
      else match_in rs method path

  -- `http_router_match`
  pub http_router_match : Router H → Bytes → Bytes → Option H
  unfolding match_in
  http_router_match r method path = match_in r.routes method path

  path_in : List (Route H) → Bytes → Bool
  unfolding bytes_eq
  path_in [] path = false
  path_in (r ∷ rs) path = if bytes_eq r.path path then true else path_in rs path

  -- `http_router_path_exists`
  pub http_router_path_exists : Router H → Bytes → Bool
  unfolding path_in
  http_router_path_exists r path = path_in r.routes path
