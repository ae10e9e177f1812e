-- ===== src/Restore/OldName.antt =====
-- The old pod's name as the daemon takes it from the new pod's.
use checkpoint_operator.Base.{◌∷◌, ◌++◌, Bytes, Lacks, index-append, drop-suc-append, ◌≡◌}
use checkpoint_operator.Restore.{after_dash, from_index}

pub after_dash-append : (s t : Bytes) → Lacks b'-' s → after_dash (s ++ b'-' ∷ t) ≡ t
unfolding after_dash
after_dash-append s t h = rw (index-append s t b'-' h, from_index) (drop-suc-append s t b'-')
