-- ===== src/VendorRefdata/Preserving.antt =====
-- What each call of vendor_refdata/internal keeps, a loop or a sequence of the calls keeps.
use secwager.Prelude.{List, All, [], ◌∷◌}
use secwager.VendorRefdata.Runs.{
  Run, each, logged, each_or_fail, and_then, tables_of, done, failed, panicked, unfinished,
}
use secwager.VendorRefdata.Tables.{Tables}

-- The call ends with tables that `R` relates to those before it.
unfoldable pub Ends : (Tables → Tables → Type 0) → Tables → Run → Type 0
Ends R t r = R t (tables_of r)

module _ (R : Tables → Tables → Type 0) (same : (t : Tables) → R t t)
    (chain : (t u v : Tables) → R t u → R u v → R t v) where
  pub Ends-done : (t : Tables) → Ends R t (done t)
  unfolding Ends
  Ends-done t = same t

  pub Ends-failed : (t : Tables) → Ends R t (failed t)
  unfolding Ends
  Ends-failed t = same t

  pub Ends-panicked : (t : Tables) → Ends R t (panicked t)
  unfolding Ends
  Ends-panicked t = same t

  pub Ends-unfinished : (t : Tables) → Ends R t (unfinished t)
  unfolding Ends
  Ends-unfinished t = same t

  pub logged-keeps :
      (t : Tables) (r : Run) (k : Tables → Run)
      → Ends R t r
      → ((u : Tables) → Ends R u (k u))
      → Ends R t (logged r k)
  unfolding logged Ends
  logged-keeps t (done u) k h next = chain t u (tables_of (k u)) h (next u)
  logged-keeps t (failed u) k h next = chain t u (tables_of (k u)) h (next u)
  logged-keeps t (panicked u) k h next = h
  logged-keeps t (unfinished u) k h next = h

  pub and_then-keeps :
      (t : Tables) (r : Run) (k : Tables → Run)
      → Ends R t r
      → ((u : Tables) → Ends R u (k u))
      → Ends R t (and_then r k)
  unfolding and_then Ends
  and_then-keeps t (done u) k h next = chain t u (tables_of (k u)) h (next u)
  and_then-keeps t (failed u) k h next = h
  and_then-keeps t (panicked u) k h next = h
  and_then-keeps t (unfinished u) k h next = h

  module _ {A : Type 0} (f : A → Tables → Run) where
    pub each-keeps :
        (xs : List A)
        → All (λ x. (t : Tables) → Ends R t (f x t)) xs
        → (t : Tables) → Ends R t (each f xs t)
    unfolding each Ends
    each-keeps [] hs t = same t
    each-keeps (x ∷ xs) hs t = logged-keeps t (f x t) (each f xs) (hs.0 t) (each-keeps xs hs.1)

    pub each_or_fail-keeps :
        ((x : A) (t : Tables) → Ends R t (f x t))
        → (xs : List A) (t : Tables) → Ends R t (each_or_fail f xs t)
    unfolding each_or_fail Ends
    each_or_fail-keeps h [] t = same t
    each_or_fail-keeps h (x ∷ xs) t =
        and_then-keeps t (f x t) (each_or_fail f xs) (h x t) (each_or_fail-keeps h xs)

pub All-always : {A : Type 0} {P : A → Type 0} → ((x : A) → P x) → (xs : List A) → All P xs
All-always h [] = tt
All-always h (x ∷ xs) = (h x, All-always h xs)
