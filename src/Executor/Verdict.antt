-- ===== src/Executor/Verdict.antt =====
-- What the result of an attempt says of its response, and where the response's body is left.
use vereda.Common.{
  ◌≡◌, refl, sym, ap, ◌∙◌, Bool, true, false, not, ◌&&◌, ◌||◌, Option, none, some, inl, inr,
  Bool-cases, includes, or_default, if◌then◌else◌, arith,
}
use vereda.Errors.{AppError, http_error, network_error, validation_error}
use vereda.RetryAfter.{Clock}
use vereda.Executor.{
  ResponseType, json, text, array_buffer, blob, no_body, Response, is_ok, default_retry_on_status,
  ExecuteRequest, Signals, BodyRead, read_ok, not_json, stream_died, Attempt, ExecuteResult,
  success_result, timeout_result, cancelled_result, error_result, Body, none_arrived,
  body_handed_off, Executed, reads_as, read_failure, is_read, read_body, deliver, classify,
  settle_fetch, execute_request,
}

abbrev pub is_success : ExecuteResult → Bool
is_success success_result = true
is_success _ = false

abbrev pub is_http_error : AppError → Bool
is_http_error (http_error s) = true
is_http_error _ = false

abbrev pub is_handed_off : Body → Bool
is_handed_off body_handed_off = true
is_handed_off _ = false

abbrev pub is_absent : Body → Bool
is_absent none_arrived = true
is_absent _ = false

-- The results whose response the caller can still read: an `HttpError`, and a success of a request
-- that asks for nothing to be read.
abbrev pub is_readable : ExecuteResult → Option ResponseType → Bool
is_readable success_result none = true
is_readable success_result (some t) = false
is_readable timeout_result t = false
is_readable cancelled_result t = false
is_readable (error_result e) t = is_http_error e

abbrev pub is_good : ExecuteRequest → Option Response → Bool
is_good req none = false
is_good req (some r) =
    is_ok r && not (includes r.status (or_default req.retry_on_status default_retry_on_status))

abbrev pub has_arrived : Option Response → Bool
has_arrived none = false
has_arrived (some r) = true

-- `o` is what the fetch came to, if there was one; `seen` is whether a cancellation was seen by then.
pub record Judged (req : ExecuteRequest) (seen : Bool) (o : Option Response) (x : Executed)
    : Type 0 where
  pub handed : is_handed_off x.body ≡ is_readable x.result (reads_as req)
  pub succeeded : is_success x.result ≡ true → is_good req o ≡ true
  pub accounted : has_arrived o ≡ true → is_absent x.body ≡ false
  pub cancelled : seen ≡ true → x.result ≡ cancelled_result

read_failure-unreadable :
    (s : Signals) (e : AppError) (t : ResponseType)
    → is_http_error e ≡ false
    → is_readable (read_failure s e) (some t) ≡ false
read_failure-unreadable s e t h = elim (Bool-cases s.timed_out) [
  | inl x ↦ rw x refl
  | inr x ↦ elim (Bool-cases s.cancelled) [ inl y ↦ rw (x, y) refl | inr y ↦ rw (x, y) h ]
]

read_body-unreadable :
    (req : ExecuteRequest) (a : Attempt) (b : BodyRead) (t : ResponseType)
    → is_readable (read_body req a b) (some t) ≡ false
read_body-unreadable req a not_json t = read_failure-unreadable a.after_read validation_error t refl
read_body-unreadable req a stream_died t = read_failure-unreadable a.after_read network_error t refl
read_body-unreadable req a read_ok t = elim (Bool-cases req.has_parse) [
  | inr p ↦ rw p refl
  | inl p ↦ elim (Bool-cases a.parses) [
    | inl q ↦ rw (p, q) refl
    | inr q ↦ rw (p, q) (read_failure-unreadable a.after_parse validation_error t refl)
  ]
]

is_read-not_handed_off : (t : ResponseType) → is_handed_off (is_read t) ≡ false
is_read-not_handed_off json = refl
is_read-not_handed_off text = refl
is_read-not_handed_off array_buffer = refl
is_read-not_handed_off blob = refl
is_read-not_handed_off no_body = refl

is_read-not_absent : (t : ResponseType) → is_absent (is_read t) ≡ false
is_read-not_absent json = refl
is_read-not_absent text = refl
is_read-not_absent array_buffer = refl
is_read-not_absent blob = refl
is_read-not_absent no_body = refl

-- The delivery of a good response, where `t` is what the request reads.
deliver-Judged :
    (req : ExecuteRequest) (a : Attempt) (r : Response) (t : Option ResponseType)
    → reads_as req ≡ t
    → is_good req (some r) ≡ true
    → a.after_fetch.cancelled ≡ false
    → Judged req a.after_fetch.cancelled (some r) (deliver req a t)
deliver-Judged req a r none e g c = record {
  handed = rw e refl;
  succeeded = (λ h. g);
  accounted = (λ h. refl);
  cancelled = (λ h. ground (arith, h, c));
}
deliver-Judged req a r (some t) e g c = record {
  handed = rw e (rw (is_read-not_handed_off t, read_body-unreadable req a a.body_read t) refl);
  succeeded = (λ h. g);
  accounted = (λ h. is_read-not_absent t);
  cancelled = (λ h. ground (arith, h, c));
}

classify-Judged :
    (clock : Clock) (req : ExecuteRequest) (a : Attempt) (r : Response)
    → a.after_fetch.cancelled ≡ false
    → Judged req a.after_fetch.cancelled (some r) (classify clock req a r)
unfolding classify
classify-Judged clock req a r c =
    elim (Bool-cases (includes r.status (or_default req.retry_on_status default_retry_on_status))) [
      | inl i ↦ rw i (record {
        handed = refl;
        succeeded = (λ h. ground (arith, h));
        accounted = (λ h. refl);
        cancelled = (λ h. ground (arith, h, c));
      })
      | inr i ↦ elim (Bool-cases (is_ok r)) [
        | inl k ↦ rw (i, k) (deliver-Judged req a r (reads_as req) refl (rw (i, k) refl) c)
        | inr k ↦
            rw (i, k)
              (record {
                handed = refl;
                succeeded = (λ h. ground (arith, h));
                accounted = (λ h. refl);
                cancelled = (λ h. ground (arith, h, c));
              })
      ]
    ]

either-Judged :
    (req : ExecuteRequest) (seen : Bool) (o : Option Response) (b : Bool) (x y : Executed)
    → (b ≡ true → Judged req seen o x)
    → (b ≡ false → Judged req seen o y)
    → Judged req seen o (if b then x else y)
either-Judged req seen o true x y v w = v refl
either-Judged req seen o false x y v w = w refl

-- An attempt that ends without a verdict on a response that is left open.
closed-Judged :
    (req : ExecuteRequest) (seen : Bool) (o : Option Response) (x : Executed)
    → is_handed_off x.body ≡ false
    → is_readable x.result (reads_as req) ≡ false
    → is_success x.result ≡ false
    → (has_arrived o ≡ true → is_absent x.body ≡ false)
    → (seen ≡ true → x.result ≡ cancelled_result)
    → Judged req seen o x
closed-Judged req seen o x h r s k c = record {
  handed = rw (h, r) refl;
  succeeded = (λ e. ground (arith, e, s));
  accounted = k;
  cancelled = c;
}

settle_fetch-Judged :
    (clock : Clock) (req : ExecuteRequest) (a : Attempt) (o : Option Response)
    → Judged req a.after_fetch.cancelled o (settle_fetch clock req a o)
unfolding settle_fetch
settle_fetch-Judged clock req a (some r) =
    let seen : Bool = a.after_fetch.cancelled in
    either-Judged req seen (some r) seen _ _
      (λ c. closed-Judged req seen (some r) _ refl refl refl (λ h. refl) (λ h. refl))
      (λ c.
        either-Judged req seen (some r) a.after_fetch.timed_out _ _
          (λ d.
            closed-Judged req seen (some r) _ refl refl refl (λ h. refl)
              (λ h. ground (arith, h, c)))
          (λ d. classify-Judged clock req a r c))
settle_fetch-Judged clock req a none =
    let seen : Bool = a.after_fetch.cancelled in
    either-Judged req seen none seen _ _
      (λ c. closed-Judged req seen none _ refl refl refl (λ h. ground (arith, h)) (λ h. refl))
      (λ c.
        either-Judged req seen none a.after_fetch.timed_out _ _
          (λ d.
            closed-Judged req seen none _ refl refl refl (λ h. ground (arith, h))
              (λ h. ground (arith, h, c)))
          (λ d.
            closed-Judged req seen none _ refl refl refl (λ h. ground (arith, h))
              (λ h. ground (arith, h, c))))

-- What the fetch of an attempt came to, if it made one, and whether it saw a cancellation by then.
abbrev pub sent : Attempt → Option Response
sent a = if a.cancelled_first || a.factory_throws then none else a.fetched

abbrev pub saw_cancel : Attempt → Bool
saw_cancel a = a.cancelled_first || (not a.factory_throws && a.after_fetch.cancelled)

nothing_sent :
    (early : Bool) (o : Option Response)
    → early ≡ true
    → has_arrived (if early then none else o) ≡ true
    → is_absent none_arrived ≡ false
nothing_sent true o e h = ground (arith, h)
nothing_sent false o e h = ground (arith, e)

same-Judged :
    (req : ExecuteRequest) (a : Attempt) (x : Executed)
    → a.cancelled_first ≡ false
    → a.factory_throws ≡ false
    → Judged req a.after_fetch.cancelled a.fetched x
    → Judged req (saw_cancel a) (sent a) x
same-Judged req a x c d v =
    let same : sent a ≡ a.fetched = rw (c, d) refl in
    record {
      handed = v.handed;
      succeeded = (λ h. ap (λ o. is_good req o) same ∙ v.succeeded h);
      accounted = (λ h. v.accounted (sym (ap (λ o. has_arrived o) same) ∙ h));
      cancelled = (λ h. v.cancelled (ground (arith, h, c, d)));
    }

-- However the signals, the fetch, the body and `parse` behave: the response of an attempt is left to
-- the caller to read exactly when the result is an `HttpError`, or a success where
-- nothing was to be read, and otherwise its body has been read or cancelled, so that none is left
-- open; a success is a 2xx response whose status is not one to retry on; and an attempt
-- that sees a cancellation before its response is classified reports it as cancelled, also if it timed
-- out as well.
pub execute_request-Judged :
    (clock : Clock) (req : ExecuteRequest) (a : Attempt)
    → Judged req (saw_cancel a) (sent a) (execute_request clock req a)
unfolding execute_request
execute_request-Judged clock req a =
    let seen : Bool = saw_cancel a in
    let o : Option Response = sent a in
    let early : Bool = a.cancelled_first || a.factory_throws in
    either-Judged req seen o a.cancelled_first _ _
      (λ c.
        closed-Judged req seen o _ refl refl refl (nothing_sent early a.fetched (ground (arith, c)))
          (λ h. refl))
      (λ c.
        either-Judged req seen o a.factory_throws _ _
          (λ d.
            closed-Judged req seen o _ refl refl refl
              (nothing_sent early a.fetched (ground (arith, d))) (λ h. ground (arith, h, c, d)))
          (λ d.
            same-Judged req a (settle_fetch clock req a a.fetched) c d
              (settle_fetch-Judged clock req a a.fetched)))
