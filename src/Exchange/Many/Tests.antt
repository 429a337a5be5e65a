-- ===== src/Exchange/Many/Tests.antt =====
-- The theorems about the goroutines of a batch at concrete data.
use harpy.Prelude.{◌≡◌, refl, ◌⊎◌, List, [], ◌∷◌, none, some}
use harpy.Go.{no_error, plain}
use harpy.Request.{Request, is_notification}
use harpy.Request.Set.{zero_set}
use harpy.Exchange.Events.{Environment}
use harpy.Exchange.Many.{Pc, Shared, System, advance, Reach, here, next, pick}
use harpy.Exchange.Many.Safety.{
  written_to, IsOrderly, failures, writes_guarded, no_write_after_failure,
}
use harpy.Samples.{call_request, notify_request, success_response, background}

abbrev batch : List Request
batch = call_request ∷ call_request ∷ notify_request ∷ []

abbrev broken : Environment
broken = record {
  context = background;
  logger_failure = no_error;
  read = (zero_set, no_error);
  call = λ tr ctx req. success_response;
  notify = λ tr ctx req. plain "not found";
  write = λ tr op. plain "broken pipe";
}

-- The first call is behind the mutex, and the writer has failed.
some_steps : (sys : System) × (Reach broken batch [] sys × (failures (sys.shared.trace) ≡ 1))
unfolding advance is_notification
some_steps =
    let a = next here (pick background 0 refl refl) in
    let b = next a (pick background 1 refl refl) in
    let c = next b (pick background 0 refl refl) in
    let d = next c (pick background 0 refl refl) in
    let e = next d (pick background 0 refl refl) in (_, (e, refl))

-- The step before that one, with which the first call is written.
before_write :
    (sys : System) × (Reach broken batch [] sys
      × ((s : Shared) × ((p : Pc) × (advance broken background 0 call_request sys.shared (sys.pc 0)
              ≡ some (s, p)))))
unfolding advance is_notification
before_write =
    let a = next here (pick background 0 refl refl) in
    let b = next a (pick background 0 refl refl) in
    let c = next b (pick background 0 refl refl) in (_, (c, (_, (_, refl))))

writes_guarded_example :
    let before = before_write.0.shared in
    let after = before_write.1.1.0 in
    ((before.owner ≡ some 0) × (after.owner ≡ some 0))
    ⊎ ((written_to after.trace ≡ written_to before.trace)
        × ((after.owner ≡ before.owner)
            ⊎ (((before.owner ≡ none) × (after.owner ≡ some 0))
                ⊎ ((before.owner ≡ some 0) × (after.owner ≡ none)))))
writes_guarded_example =
    writes_guarded broken batch background 0 (before_write.1.0) refl (before_write.1.1.1.1)

no_write_after_failure_example : IsOrderly (some_steps.0.shared.trace)
no_write_after_failure_example = no_write_after_failure broken batch (some_steps.1.0) refl
