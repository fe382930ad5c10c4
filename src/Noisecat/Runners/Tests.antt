-- ===== src/Noisecat/Runners/Tests.antt =====
-- The theorems on the runners at concrete inputs.
use noisecat.Base.{◌≤◌, ◌≡◌, refl, []}
use noisecat.Noisecat.Runners.{
  Io, proxied, started, snt, returned, signalled, reported, for_second, armed, finished, set_phase,
  signal_end_of_write, push, ends, signals, reports, first, Reach, here, next, steps, Forced,
}
use noisecat.Noisecat.Runners.Returns.{handle_io_returns}

-- The reader ends, and its report is taken.
abbrev io1 : Io
io1 = set_phase snt returned started

abbrev io2 : Io
io2 = set_phase snt signalled (signal_end_of_write proxied snt io1)

abbrev io3 : Io
io3 = set_phase snt reported (push snt io2)

abbrev io4 : Io
io4 = record io3 { waiting = for_second; ch = []; timer = armed }

abbrev run : Reach proxied started io4
run =
    next
      (next (next (next here (ends snt started refl)) (signals snt io1 refl))
        (reports snt io2 refl))
      (first snt [] io3 refl refl)

handle_io_returns_example :
    (steps run ≤ 10) × (t : Io) × Forced proxied io4 t × (t.waiting ≡ finished)
handle_io_returns_example = handle_io_returns proxied (λ d. refl) run (λ e. cc e)
