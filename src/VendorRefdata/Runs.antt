-- ===== src/VendorRefdata/Runs.antt =====
-- How the calls of vendor_refdata/internal end, and how their callers go on.
use secwager.Prelude.{List, ◌∷◌, []}
use secwager.VendorRefdata.Tables.{Tables}

-- The end of a call, with the tables as it leaves them, for every statement commits on its own:
-- `panicked` stops the process, and `unfinished` is a loop that used up its fuel.
pub data Run : Type 0 where
  done failed panicked unfinished : Tables → Run

abbrev pub tables_of : Run → Tables
tables_of (done t) = t
tables_of (failed t) = t
tables_of (panicked t) = t
tables_of (unfinished t) = t

-- The caller returns an error of the call.
unfoldable pub and_then : Run → (Tables → Run) → Run
and_then (done t) k = k t
and_then (failed t) k = failed t
and_then (panicked t) k = panicked t
and_then (unfinished t) k = unfinished t

-- The caller logs an error of the call and goes on.
unfoldable pub logged : Run → (Tables → Run) → Run
logged (done t) k = k t
logged (failed t) k = k t
logged (panicked t) k = panicked t
logged (unfinished t) k = unfinished t

-- A loop whose body logs its errors, and one that returns the first.
unfoldable pub each {ℓ} : {A : Type ℓ} → (A → Tables → Run) → List A → Tables → Run
unfolding logged
each f [] t = done t
each f (x ∷ xs) t = logged (f x t) (each f xs)

unfoldable pub each_or_fail {ℓ} : {A : Type ℓ} → (A → Tables → Run) → List A → Tables → Run
unfolding and_then
each_or_fail f [] t = done t
each_or_fail f (x ∷ xs) t = and_then (f x t) (each_or_fail f xs)
