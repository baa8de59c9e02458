-- ===== src/Tracing/Examples.antt =====
-- A request that is retried once while tracing is stopped.
use vereda.Common.{
  ◌+◌, ◌<◌, ◌≡◌, refl, true, none, some, List, [], ◌∷◌, ◌++◌, map, length, count, arith,
}
use vereda.Common.Text.{codes}
use vereda.Errors.{network_error}
use vereda.Lifecycle.{request, retry, success}
use vereda.Tracing.{Op, emits, starts, settles, stops, stops_within, responded, threw, new, run}
use vereda.Tracing.Spans.{ends_of}
use vereda.Tracing.Steps.{IsBalanced}
use vereda.Tracing.Balanced.{run-new-IsBalanced, run-stop-run}

abbrev before : List Op
before =
    emits (request 7 (codes "https://a.b/c?k=v") (codes "GET") (codes "a.b"))
    ∷ starts (record {
      ticket_id = 7;
      method = codes "GET";
      url = codes "https://a.b/c?k=v";
      partition = codes "a.b";
      attempt = 0;
    })
    ∷ settles 1 (threw (some (codes "TypeError")))
    ∷ emits (retry 7 (codes "https://a.b/c") (codes "a.b") 0 100 network_error)
    ∷ starts (record {
      ticket_id = 7;
      method = codes "GET";
      url = codes "https://a.b/c?k=v";
      partition = codes "a.b";
      attempt = 1;
    })
    ∷ []

abbrev after : List Op
after =
    settles 2 (responded 200)
    ∷ emits (
        success
          (record {
            ticket_id = 7;
            url = codes "https://a.b/c";
            partition = some (codes "a.b");
            attempts = 2;
            duration_ms = 150;
            queued_ms = 0;
          })
          200)
    ∷ []

each_ended : map (λ s. s.ends) (run (new true) (before ++ (stops ∷ after))).spans ≡ 1 ∷ 1 ∷ 1 ∷ []
unfolding run
each_ended = refl

parents : map (λ s. s.parent) (run (new true) before).spans ≡ none ∷ some 0 ∷ some 0 ∷ []
unfolding run
parents = refl

-- Stopped by an earlier listener of the `request` event: its span is started, and nothing ends it.
leaked :
    map
      (λ s. s.ends)
      (run (new true) (
        stops_within (request 7 (codes "https://a.b/c") (codes "GET") (codes "a.b")) ∷ after)).spans
    ≡ 0 ∷ []
unfolding run
leaked = refl

run-new-IsBalanced_example : IsBalanced 2 (run (new true) before)
run-new-IsBalanced_example = run-new-IsBalanced true before (λ id. ground arith) 2

one_started : 0 < length (run (new true) before).spans
unfolding run
one_started = omega arith

run-stop-run_example :
    let t = run (new true) (before ++ (stops ∷ after)) in
    (length t.spans ≡ length (run (new true) before).spans)
    × (ends_of 0 t.spans + count 0 t.waiting ≡ 1)
run-stop-run_example = run-stop-run true before after (λ id. ground arith) 0 one_started
