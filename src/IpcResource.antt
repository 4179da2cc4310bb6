-- ===== src/IpcResource.antt =====
-- common/src/ti/resmgr/IpcResource.c and _IpcResource.h: the client of the host's resource manager. A
-- call is a function of what the operating system and the host answer; it gives its result and the
-- list of what it has done.
pub mod Exchange
pub mod Channels
pub mod Requests
pub mod Success
mod Tests
use benchmarks_m3_dsp_unopti.Base.{
  ℕ, ◌+◌, ◌-◌, ◌^◌, ◌≡◌, ltb, ◌==◌, if◌then◌else◌, Option, none, some, List, [], ◌∷◌, ◌++◌, Bool,
  true, false, not, ◌&&◌, ◌||◌, get_elem?, ℤ, pos, negsuc, eq_ℤ, int32,
}

-- The results.
abbrev pub s_success : ℤ
s_success = pos 0

abbrev pub e_fail : ℤ
e_fail = negsuc 0

abbrev pub e_timeout : ℤ
e_timeout = negsuc 5

abbrev pub e_invalid_args : ℤ
e_invalid_args = negsuc 6

abbrev pub e_ret_memory : ℤ
e_ret_memory = negsuc 8

abbrev pub e_busy : ℤ
e_busy = negsuc 9

abbrev pub e_no_resource : ℤ
e_no_resource = negsuc 10

-- `if (status)`
abbrev pub nonzero : ℤ → Bool
nonzero s = not (eq_ℤ s (pos 0))

-- `_IpcResource_translateError`: the host answers 0 or a negated errno.
unfoldable pub translate_error : ℤ → ℤ
translate_error s =
    if eq_ℤ s (pos 0)
    then s_success
    else if eq_ℤ s (negsuc 1)
    then e_no_resource
    else if eq_ℤ s (negsuc 11)
    then e_ret_memory
    else if eq_ℤ s (negsuc 15)
    then e_busy
    else if eq_ℤ s (negsuc 21)
    then e_invalid_args
    else e_fail

-- The entries of `IpcResource_names`, in its order, and the name that takes the place of those of the
-- two processors.
pub data Name : Type 0 where
  gptimer iva iva_seq0 iva_seq1 l3bus iss fdif sl2if auxclk regulator gpio sdma ipu_c0 dsp_c0 i2c :
      Name
  rproc : Name

abbrev pub names : List Name
names =
    gptimer ∷ iva ∷ iva_seq0 ∷ iva_seq1 ∷ l3bus ∷ iss ∷ fdif ∷ sl2if ∷ auxclk ∷ regulator ∷ gpio
    ∷ sdma ∷ ipu_c0 ∷ dsp_c0 ∷ i2c ∷ []

-- `IpcResource_toName`
abbrev pub to_name : ℕ → Option Name
to_name t = get_elem? names t

-- `IpcResource_resLen`: the sizes of the parameters of each type, none for the other types.
unfoldable pub res_len : ℕ → ℕ
res_len t =
    if t == 0
    then 8
    else if t == 8
    then 16
    else if t == 9
    then 12
    else if t == 10
    then 4
    else if t == 11
    then 68
    else if t == 14
    then 4
    else 0

-- `IpcResource_reqDataLen`
unfoldable pub req_data_len : ℕ → ℕ
req_data_len t = if t == 0 then 4 else 0

-- `IpcResource_Object`
pub record Channel : Type 0 where
  pub endpoint : ℕ
  pub remote : ℕ
  pub timeout : ℕ
  pub sem : ℕ
  pub msgq : ℕ

-- The parameters that go with an allocation: the caller's, or the name of a processor.
pub data Params : Type 0 where
  given : List ℕ → Params
  processor : Name → Params

-- What is sent: `IpcResource_Req` with its type, ALLOC, FREE, that of the constraints or REQ_DATA.
pub data Request : Type 0 where
  alloc : Name → Params → Request
  free : ℕ → Request
  constrain : ℕ → ℕ → List ℕ → Request
  req_data : ℕ → ℕ → Request

-- What MessageQCopy_recv gives, and the fields of the `IpcResource_Ack` behind it.
pub record Reply : Type 0 where
  pub status : ℤ
  pub len : ℕ
  pub source : ℕ
  pub ack_status : ℕ
  pub res_handle : ℕ
  pub data_bytes : List ℕ

-- What one call does, in order.
pub data Action : Type 0 where
  allocs frees inits : Action
  sem_creates sem_deletes pends posts : ℕ → Action
  msgq_creates msgq_deletes : ℕ → Action
  registers unregisters : ℕ → Action
  sends : ℕ → ℕ → Request → ℕ → Action
  receives : ℕ → ℕ → Action

-- How a call ends: it returns, or Assert_isTrue ends the program.
pub data Ending {ℓ} (A : Type ℓ) : Type ℓ where
  returns : A → Ending A
  asserts : Ending A

abbrev pub forever : ℕ
forever = 2 ^ 32 - 1

-- The timeout that `IpcResource_connect` stores; MessageQCopy_FOREVER is the same value.
abbrev pub timeout_of : ℕ → ℕ
timeout_of t = if t == 0 then 500 else if t == forever then forever else t

-- What the operating system answers to `IpcResource_connect`: the new semaphore, and the queue with
-- its endpoint, none for NULL.
pub record Resources : Type 0 where
  pub has_memory : Bool
  pub new_sem : ℕ
  pub new_queue : Option (ℕ × ℕ)

-- The clean-up of `IpcResource_connect` from `err_disc` and from `err` on.
abbrev pub err : List Action
err = frees ∷ []

abbrev pub err_disc : Channel → List Action
err_disc c = unregisters c.endpoint ∷ msgq_deletes c.msgq ∷ err

-- The first part of `IpcResource_connect`'s checks on the host's answer: whether it accepts.
abbrev pub accepts : Reply → Bool
accepts r =
    not (nonzero r.status)
    && not (ltb r.len 8)
    && not (nonzero (translate_error (int32 r.ack_status)))

-- `IpcResource_connect`
unfoldable pub connect : Resources → Reply → ℕ → Option Channel × List Action
connect o r t = if not o.has_memory then (none, []) else elim o.new_queue [
  | none ↦ (none, allocs ∷ sem_creates o.new_sem ∷ inits ∷ err)
  | some (q, ep) ↦
      let c : Channel = record {
        endpoint = ep;
        remote = r.source;
        timeout = timeout_of t;
        sem = o.new_sem;
        msgq = q;
      } in
      let opened : List Action =
        allocs
        ∷ sem_creates o.new_sem
        ∷ inits
        ∷ msgq_creates q
        ∷ registers ep
        ∷ receives q (timeout_of t)
        ∷ [] in
      if accepts r then (some c, opened) else (none, opened ++ err_disc c)
]

-- `IpcResource_disconnect`, with the status of MessageQCopy_delete; the handle is none for NULL.
unfoldable pub disconnect : Option Channel → ℤ → ℤ × List Action
disconnect none s = (e_invalid_args, [])
disconnect (some c) s =
    if nonzero s
    then (s, unregisters c.endpoint ∷ msgq_deletes c.msgq ∷ [])
    else (s_success, unregisters c.endpoint ∷ msgq_deletes c.msgq ∷ sem_deletes c.sem ∷ frees ∷ [])
