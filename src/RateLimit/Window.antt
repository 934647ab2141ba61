-- ===== src/RateLimit/Window.antt =====
-- The limiter against an ideal one that forgets nothing.
use mathlib.Core.List.{append-nil}
use mathlib.Core.Path.{subst}
use seans.Prelude.{
  ◌∙◌, ℕ, ◌≤◌, ◌≡◌, refl, String, Bool, true, false, List, [], ◌∷◌, ◌++◌, get_or, length, ltb, leb,
  str_eq, str_eq_iff, ap, arith, inl, inr, Bool-cases, if◌then◌else◌,
}
use seans.Prelude.Dict.{lookup, insert, lookup-insert, string_eq}
use seans.Http.{Result, ok, raise}
use seans.Table.{select}
use seans.Table.Laws.{select-append}
use seans.RateLimit.{Buckets, in_window, rate_limit}

-- A request: the key of its client and its time.
abbrev pub Hit : Type 0
Hit = String × ℕ

abbrev pub is_ok : Result (Unit {0}) → Bool
is_ok (ok _) = true
is_ok (raise _) = false

module _ (max_requests window : ℕ) where
  -- The times of a key in a history.
  abbrev pub times_of : String → List Hit → List ℕ
  times_of key [] = []
  times_of key ((k, t) ∷ hits) = if str_eq k key then t ∷ times_of key hits else times_of key hits

  -- The ideal limiter: a request passes if fewer than `max_requests` of its client passed within the
  -- last `window`.
  abbrev pub allowed : String → ℕ → List Hit → Bool
  allowed key now passed =
      ltb (length (select (in_window window now) (times_of key passed))) max_requests

  -- The answers of both to a sequence of requests.
  pub run_limiter : List Hit → Buckets → List Bool
  run_limiter [] buckets = []
  run_limiter ((key, now) ∷ hits) buckets =
      let (r, buckets') = rate_limit max_requests window key now buckets in
      is_ok r ∷ run_limiter hits buckets'

  pub run_ideal : List Hit → List Hit → List Bool
  run_ideal [] passed = []
  run_ideal ((key, now) ∷ hits) passed =
      let ok_now = allowed key now passed in
      ok_now ∷ run_ideal hits (if ok_now then passed ++ (key, now) ∷ [] else passed)

  -- No request comes before the one ahead of it.
  abbrev pub InOrder : ℕ → List Hit → Type 0
  InOrder last [] = Unit
  InOrder last ((key, now) ∷ hits) = (last ≤ now) × InOrder now hits

  select-select :
      (now later : ℕ) (ts : List ℕ)
      → now ≤ later
      → select (in_window window later) (select (in_window window now) ts)
        ≡ select (in_window window later) ts
  unfolding select
  select-select now later [] h = refl
  select-select now later (t ∷ ts) h = ground (arith, select-select now later ts h)

  times_of-append :
      (key k : String) (t : ℕ) (hits : List Hit)
      → times_of key (hits ++ (k, t) ∷ [])
        ≡ times_of key hits ++ (if str_eq k key then t ∷ [] else [])
  times_of-append key k t [] = refl
  times_of-append key k t ((j, u) ∷ hits) = ground (arith, times_of-append key k t hits)

  abbrev bucket_of : String → Buckets → List ℕ
  bucket_of key buckets = get_or (lookup key buckets) []

  -- From `last` on, a bucket and the history show the same window of each client.
  abbrev Agrees : ℕ → Buckets → List Hit → Type 0
  Agrees last buckets passed =
      (key : String) (later : ℕ)
      → last ≤ later
      → select (in_window window later) (bucket_of key buckets)
        ≡ select (in_window window later) (times_of key passed)

  -- The bucket after a request, cut to a later window.
  Agrees-after :
      (key : String) (now last : ℕ) (buckets : Buckets) (passed : List Hit) (more : List ℕ)
      (passed' : List Hit)
      → last ≤ now
      → Agrees last buckets passed
      → ((k : String)
          → times_of k passed' ≡ times_of k passed ++ (if str_eq key k then more else []))
      → Agrees now
          (insert key (select (in_window window now) (bucket_of key buckets) ++ more) buckets)
          passed'
  unfolding select
  Agrees-after key now last buckets passed more passed' after agrees extends k later le =
      rw (lookup-insert key k _ buckets, extends k, select-append)
        (elim (Bool-cases (str_eq key k)) [
          | inl same ↦
              rw
                (
                  same,
                  select-append (in_window window later)
                      (select (in_window window now) (bucket_of key buckets)) more,
                  select-select now later (bucket_of key buckets) le,
                )
                (ap (λ l. l ++ select (in_window window later) more)
                  (agrees key later (omega arith)
                    ∙ ap (λ (j : String). select (in_window window later) (times_of j passed))
                        ((str_eq_iff key k).0 same)))
          | inr other ↦ rw (other, append-nil) (agrees k later (omega arith))
        ])

  no_more :
      (key : String) (passed : List Hit) (k : String)
      → times_of k passed ≡ times_of k passed ++ (if str_eq key k then [] else [])
  no_more key passed k = elim (Bool-cases (str_eq key k)) [
    | inl e ↦ rw (e, append-nil)
    | inr e ↦ rw (e, append-nil)
  ]

  run_limiter-Agrees :
      (last : ℕ) (hits : List Hit) (buckets : Buckets) (passed : List Hit)
      → InOrder last hits
      → Agrees last buckets passed
      → run_limiter hits buckets ≡ run_ideal hits passed
  unfolding run_limiter run_ideal rate_limit
  run_limiter-Agrees last [] buckets passed order agrees = refl
  run_limiter-Agrees last ((key, now) ∷ hits) buckets passed (le, order) agrees =
      let kept = select (in_window window now) (bucket_of key buckets) in
      let same : length kept ≡ length (select (in_window window now) (times_of key passed)) =
        ap length (agrees key now le) in
      elim (Bool-cases (allowed key now passed)) [
        | inl free ↦
            let open_door : leb max_requests (length kept) ≡ false = ground arith in
            rw (free, open_door)
              (ap (◌∷◌ true) (
                run_limiter-Agrees now hits _ _ order (
                  Agrees-after key now last buckets passed (now ∷ []) _ le agrees
                    (λ k. times_of-append k key now passed))))
        | inr full ↦
            let shut : leb max_requests (length kept) ≡ true = ground arith in
            rw (full, shut)
              (ap (◌∷◌ false) (
                run_limiter-Agrees now hits (insert key kept buckets) passed order (
                  subst (λ l. Agrees now (insert key l buckets) passed) (append-nil kept)
                    (Agrees-after key now last buckets passed [] passed le agrees
                      (no_more key passed)))))
      ]

  -- Over any requests in the order of their times, the limiter answers as the ideal one does: it lets
  -- a request through exactly when fewer than `max_requests` of its client went through within the
  -- last `window`.
  pub run_limiter-eq-run_ideal :
      (hits : List Hit) → InOrder 0 hits → run_limiter hits [] ≡ run_ideal hits []
  unfolding lookup
  run_limiter-eq-run_ideal hits order = run_limiter-Agrees 0 hits [] [] order (λ key later le. refl)
