-- ===== src/Resolver/Bounds.antt =====
-- How far the resolution of a URL goes (src/utils/url_resolver.rs).
use mathlib.Core.Path.{fun_ext}
use ingest_pipeline.Prelude.{
  none, false, true, Option, ℕ, zero, suc, ◌+◌, ◌-◌, ◌*◌, ◌≤◌, ◌<◌, ◌≡◌, refl, arith, Bool-cases,
  Option-cases, inl, inr, ap, leb,
}
use ingest_pipeline.Prelude.Text.{Text}
use ingest_pipeline.Resolver.{
  max_depth, enough, extract_meta_refresh, redirected, from_page, from_get, resolve_once,
  resolve_recursive, resolve_source_url, is_shortener_domain, plain_request,
}
use ingest_pipeline.Store.{is_ok, M, Env, World, Method, Result, ok, err, Response}

-- A computation that gives a result, changes nothing but the number of requests sent, and sends at
-- most `k`.
abbrev pub Sends : ℕ → M (Option Text) → Type 0
Sends k m =
    (env : Env) (w : World)
    → (is_ok (m env w).0 ≡ true)
      × ((m env w).1 ≡ record w { requests = (m env w).1.requests })
      × ((m env w).1.requests ≤ w.requests + k)

from_page-Sends :
    (deeper : Text → M (Option Text)) (k : ℕ) (body : Result Text)
    → ((url : Text) → Sends k (deeper url))
    → Sends k (from_page deeper body)
unfolding from_page
from_page-Sends deeper k (err e) h env w = ground arith
from_page-Sends deeper k (ok body) h env w =
    elim (Option-cases (extract_meta_refresh env.libs body)) [
      | inl p ↦ rw (p, from_page) (ground arith)
      | inr (url, p) ↦ rw (p, from_page) (ground (arith, h url env w))
    ]

from_get-Sends :
    (deeper : Text → M (Option Text)) (k : ℕ) (url : Text) (answer : Result Response)
    → ((url : Text) → Sends k (deeper url))
    → Sends k (from_get deeper url answer)
unfolding from_get
from_get-Sends deeper k url (err e) h env w = ground arith
from_get-Sends deeper k url (ok response) h env w =
    ground (arith, from_page-Sends deeper k response.payload h env w)

resolve_once-Sends :
    (deeper : Text → M (Option Text)) (k : ℕ) (url : Text)
    → ((url : Text) → Sends k (deeper url))
    → Sends (k + 2) (resolve_once deeper url)
unfolding resolve_once redirected
resolve_once-Sends deeper k url h env w =
    elim (Option-cases (redirected url (env.send w.requests (plain_request Method.head url)))) [
      | inl p ↦
          rw (p, resolve_once)
            (ground (
              arith,
              from_get-Sends deeper k url (env.send (suc w.requests) (plain_request Method.get url))
                  h env (record w { requests = suc (suc w.requests) }),
            ))
      | inr (final_url, p) ↦ rw (p, resolve_once) (ground arith)
    ]

-- Each level sends two requests at most, and there are `max_depth - depth` levels.
resolve_recursive-Sends :
    (fuel : ℕ) (url : Text) (depth : ℕ)
    → Sends (2 * (max_depth - depth)) (resolve_recursive fuel url depth)
unfolding resolve_recursive
resolve_recursive-Sends zero url depth env w = ground arith
resolve_recursive-Sends (suc fuel) url depth env w = elim (Bool-cases (leb max_depth depth)) [
  | inl stop ↦ rw (stop, resolve_recursive) (ground arith)
  | inr go ↦
      rw (go, resolve_recursive)
        (ground (
          arith,
          resolve_once-Sends (λ target. resolve_recursive fuel target (depth + 1))
              (2 * (max_depth - (depth + 1))) url
              (λ target. resolve_recursive-Sends fuel target (depth + 1)) env w,
        ))
]

-- Resolving a URL always gives a result, whatever the network answers, touches no table, and sends at
-- most six requests; none is sent, and nothing is resolved, for a URL that is not on a shortener.
pub resolve_source_url-Sends :
    (url : Text) (env : Env) (w : World)
    → (is_ok (resolve_source_url url env w).0 ≡ true)
      × ((resolve_source_url url env w).1
          ≡ record w { requests = (resolve_source_url url env w).1.requests })
      × ((resolve_source_url url env w).1.requests ≤ w.requests + 6)
      × (is_shortener_domain env.libs url ≡ false → resolve_source_url url env w ≡ (ok none, w))
unfolding resolve_source_url
resolve_source_url-Sends url env w = elim (Bool-cases (is_shortener_domain env.libs url)) [
  | inl short ↦
      rw (short, resolve_source_url) (ground (arith, resolve_recursive-Sends enough url 0 env w))
  | inr long ↦ rw (long, resolve_source_url) (ground arith)
]

-- With at least `max_depth - depth + 1` levels of fuel the result does not depend on the fuel.
pub resolve_recursive-fuel :
    (f g : ℕ) (url : Text) (depth : ℕ)
    → max_depth < f + depth
    → max_depth < g + depth
    → resolve_recursive f url depth ≡ resolve_recursive g url depth
unfolding resolve_recursive
resolve_recursive-fuel zero zero url depth hf hg = refl
resolve_recursive-fuel zero (suc g) url depth hf hg = ground arith
resolve_recursive-fuel (suc f) zero url depth hf hg = ground arith
resolve_recursive-fuel (suc f) (suc g) url depth hf hg = elim (Bool-cases (leb max_depth depth)) [
  | inl stop ↦ rw (stop, resolve_recursive)
  | inr go ↦
      rw (go, resolve_recursive)
        (ap (λ deeper. resolve_once deeper url)
          (fun_ext
            (λ target. resolve_recursive-fuel f g target (depth + 1) (omega arith) (omega arith))))
]
