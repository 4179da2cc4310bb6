-- ===== src/IpcResource/Exchange.antt =====
-- The requests of IpcResource.c: each takes the channel's semaphore, sends a request and waits for the
-- host's answer.
use benchmarks_m3_dsp_unopti.Base.{
  ℕ, zero, suc, ◌+◌, ltb, ◌==◌, if◌then◌else◌, Option, none, some, List, [], ◌∷◌, Bool, true, false,
  not, ◌&&◌, ◌||◌, ℤ, negsuc, eq_ℤ, int32,
}
use benchmarks_m3_dsp_unopti.IpcResource.{
  s_success, e_fail, e_timeout, e_invalid_args, nonzero, translate_error, Name, rproc, to_name,
  res_len, req_data_len, Channel, given, processor, Request, alloc, free, constrain, req_data,
  Reply, Action, pends, posts, sends, receives, Ending, returns, asserts,
}

-- The first bytes that memcpy copies.
abbrev pub take : ℕ → List ℕ → List ℕ
take zero xs = []
take (suc n) [] = []
take (suc n) (x ∷ xs) = x ∷ take n xs

-- The status that the calls compute from that of MessageQCopy_send and from the answer. Only
-- `IpcResource_requestData` does not check who answers.
unfoldable pub answer_status : Channel → ℤ → Reply → Bool → ℤ
answer_status c sent r checks_source =
    if nonzero sent
    then e_fail
    else if nonzero r.status
    then (if eq_ℤ r.status (negsuc 5) then e_timeout else e_fail)
    else if checks_source && not (r.source == c.remote)
    then e_fail
    else translate_error (int32 r.ack_status)

-- What they do up to there.
unfoldable pub exchange : Channel → ℤ → Request → ℕ → List Action
exchange c sent req len =
    pends c.sem
    ∷ sends c.remote c.endpoint req len
    ∷ (if nonzero sent then posts c.sem ∷ [] else receives c.msgq c.timeout ∷ posts c.sem ∷ [])

-- What a call hands over with its status, and whether the answer has the length that is asserted.
abbrev pub hand_over {ℓ} : {A : Type ℓ} → ℤ → Bool → A → Ending (ℤ × Option A)
hand_over s fits a =
    if nonzero s then returns (s, none) else if fits then returns (s_success, some a) else asserts

-- The resource that `IpcResource_request` stores: its handle, and what is copied back to the caller.
abbrev pub Grant : Type 0
Grant = ℕ × List ℕ

-- A processor is asked for under the name `rproc`, with its own as the parameters, which take 16 bytes;
-- what comes back for it stays in the call.
abbrev pub is_processor : ℕ → Bool
is_processor t = (t == 12) || (t == 13)

abbrev pub alloc_request : ℕ → Name → List ℕ → Request
alloc_request t n ps =
    if is_processor t then alloc rproc (processor n) else alloc n (given (take (res_len t) ps))

abbrev pub alloc_len : ℕ → ℕ
alloc_len t = if is_processor t then 16 else res_len t

-- The part of `IpcResource_request` behind its guards.
unfoldable pub request_for :
    Channel → ℕ → Name → List ℕ → ℤ → Reply → Ending (ℤ × Option Grant) × List Action
request_for c t n ps sent r = (
  hand_over (answer_status c sent r true) (r.len == alloc_len t + 8 + 8)
      (r.res_handle, (if is_processor t then ps else take (res_len t) r.data_bytes)),
  exchange c sent (alloc_request t n ps) (20 + alloc_len t),
)

abbrev pub refused {ℓ} : {A : Type ℓ} → Ending (ℤ × Option A) × List Action
refused = (returns (e_invalid_args, none), [])

-- The guards on the type of the resource and on the parameters.
abbrev pub request_named :
    Channel
    → ℕ
    → Option Name
    → Option (List ℕ)
    → ℤ
    → Reply
    → Ending (ℤ × Option Grant) × List Action
request_named c t none ps sent r = refused
request_named c t (some n) none sent r =
    if ltb 0 (res_len t) then refused else request_for c t n [] sent r
request_named c t (some n) (some xs) sent r = request_for c t n xs sent r

-- `IpcResource_request`: none for a NULL handle and for NULL parameters; `has_out` says whether
-- `resHandle` is not NULL.
unfoldable pub request :
    Option Channel
    → Bool
    → ℕ
    → Option (List ℕ)
    → ℤ
    → Reply
    → Ending (ℤ × Option Grant) × List Action
request none has_out t ps sent r = refused
request (some c) has_out t ps sent r =
    if has_out then request_named c t (to_name t) ps sent r else refused

-- `IpcResource_requestData`; `has_data` says whether `data` is not NULL.
unfoldable pub request_data :
    Option Channel → ℕ → ℕ → Bool → ℤ → Reply → Ending (ℤ × Option (List ℕ)) × List Action
request_data none h t has_data sent r = refused
request_data (some c) h t has_data sent r =
    if ltb 0 (req_data_len t) && not has_data then refused else (
      hand_over (answer_status c sent r false) (r.len == req_data_len t + 8)
          (take (req_data_len t) r.data_bytes),
      exchange c sent (req_data h t) (4 + 8 + req_data_len t),
    )

abbrev pub req_constraints : ℕ
req_constraints = 4

abbrev pub rel_constraints : ℕ
rel_constraints = 5

-- The same for a call that hands nothing over.
abbrev pub settle : ℤ → Bool → Ending ℤ
settle s fits = if nonzero s then returns s else if fits then returns s_success else asserts

-- A release of constraints ends when it is sent.
abbrev pub release_sent : Channel → ℤ → Request → Ending ℤ × List Action
release_sent c sent req = (
  returns (if nonzero sent then e_fail else s_success),
  pends c.sem ∷ sends c.remote c.endpoint req 24 ∷ posts c.sem ∷ [],
)

-- `IpcResource_setConstraints` with request type `t`.
unfoldable pub set_constraints :
    Option Channel → ℕ → ℕ → Option (List ℕ) → ℤ → Reply → Ending ℤ × List Action
set_constraints none h t cs sent r = (returns e_invalid_args, [])
set_constraints (some c) h t none sent r = (returns e_invalid_args, [])
set_constraints (some c) h t (some cs) sent r =
    if t == rel_constraints then release_sent c sent (constrain t h (take 20 cs)) else (
      settle (answer_status c sent r true) (r.len == 20 + 8),
      exchange c sent (constrain t h (take 20 cs)) 24,
    )

-- `IpcResource_requestConstraints`
unfoldable pub request_constraints :
    Option Channel → ℕ → Option (List ℕ) → ℤ → Reply → Ending ℤ × List Action
request_constraints c h cs sent r = set_constraints c h req_constraints cs sent r

-- `IpcResource_releaseConstraints`
unfoldable pub release_constraints :
    Option Channel → ℕ → Option (List ℕ) → ℤ → Reply → Ending ℤ × List Action
release_constraints c h cs sent r = set_constraints c h rel_constraints cs sent r

-- `IpcResource_release` does not take the semaphore.
unfoldable pub release : Option Channel → ℕ → ℤ → ℤ × List Action
release none h sent = (e_invalid_args, [])
release (some c) h sent = (sent, sends c.remote c.endpoint (free h) 8 ∷ [])
