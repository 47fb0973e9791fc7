-- ===== src/Sigset/Tests.antt =====
-- Sets of two and three signals.
use elos.Base.{◌≡◌, refl}
use elos.Sigset.{empty, sigblock, sigset_ffs, search_from}

lowest_first : sigset_ffs (sigblock (sigblock empty 3) 2) ≡ 2
unfolding sigset_ffs search_from
lowest_first = refl

segv_first : sigset_ffs (sigblock (sigblock (sigblock empty 9) 11) 2) ≡ 11
unfolding sigset_ffs search_from
segv_first = refl
