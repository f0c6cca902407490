-- ===== src/Pipeline/Laws.antt =====
-- What the pipeline needs of a venue's protocol: the levels that it gives on passed ingestion.
use home_assignment.Common.{List, ℕ}
use home_assignment.Common.Lists.{All}
use home_assignment.Common.Int.{ℤ}
use home_assignment.Engine.Books.{Ingested}
use home_assignment.Runner.{Protocol}

-- `Good` is what the protocol's state keeps for this.
pub record FeedLaws (p : Protocol) (Good : p.State → Type 0) : Type 0 where
  pub reset-Good : (s : p.State) → Good s → Good (p.reset s)
  pub on_frame-Good :
      (s : p.State) (frame : List ℕ) (recv : ℤ)
      → Good s
      → Good (p.on_frame s frame recv).state × All Ingested (p.on_frame s frame recv).out
  pub on_rest_snapshot-Good :
      (s : p.State) (body : List ℕ) (recv : ℤ)
      → Good s
      → Good (p.on_rest_snapshot s body recv).state
        × All Ingested (p.on_rest_snapshot s body recv).out
