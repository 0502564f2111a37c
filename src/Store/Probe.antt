-- ===== src/Store/Probe.antt =====
-- How the stores that keep their entries under paths read the outcome of `str_to_coordpath`.
use chton.Prelude.{Option, none, some, List, ℕ}
use chton.Prelude.Outcome.{Result, ok, err, Fault, panic, error}
use chton.Tagma.{Tagma}
use chton.Store.Key.{KeyError, str_to_coordpath}
use chton.Store.Entity.{Panic, panicked, Key}

-- `let Ok(path) = … else { … }`: a key without a path is no entry.
abbrev pub probed : {P : Type 0} → Result (Fault KeyError) P → Result Panic (Option P)
probed (ok p) = ok (some p)
probed (err panic) = err panicked
probed (err (error e)) = ok none

module _ ⦃t : Tagma⦄ (chars : List ℕ → List ℕ) where
  unfoldable pub probe : Key → Result Panic (Option t.CoordPath)
  probe key = probed (str_to_coordpath chars key)
