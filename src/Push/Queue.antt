-- ===== src/Push/Queue.antt =====
-- The refreshes that are queued: one of a kind at most, and none is lost.
use openpak_client.Shared.{
  ℕ, ◌==◌, ◌≡◌, refl, sym, ap, ◌∙◌, inl, inr, Bool, true, false, ◌||◌, Option, List, [], ◌∷◌, ◌++◌,
  arith, if◌then◌else◌, Bool-cases, any_of, Bytes, codes, bytes_eq, bytes_eq_iff, text_eq,
}
use openpak_client.Shared.Int.{ℤ}
use openpak_client.Shared.Maps.{lookup-insert}
use openpak_client.Network.Json.{Json}
use openpak_client.Push.Flat.{
  Read, value, missing, outside, Message, envelope_type, read_message, type_handover_result,
  type_reset,
}
use openpak_client.Push.{
  State, Job, Work, friend_list, friend_requests, invitations, invitations_and_sync, is_queued,
  refresh, run_job, kind_of, on_message, open_connection, on_frame,
}

abbrev pub has_kind : Bytes → List Job → Bool
has_kind kind jobs = any_of (λ j. bytes_eq j.kind kind) jobs

-- No kind twice.
abbrev pub AreDistinct : List Job → Type 0
AreDistinct [] = Unit
AreDistinct (j ∷ js) = (has_kind j.kind js ≡ false) × AreDistinct js

-- The jobs that wait are of different kinds, and the flags say which kinds wait.
pub record IsQueue (s : State) : Type 0 where
  pub distinct : AreDistinct s.jobs
  pub flags : (kind : Bytes) → is_queued kind s ≡ has_kind kind s.jobs

has_kind-append :
    (kind : Bytes) (jobs : List Job) (j : Job)
    → has_kind kind (jobs ++ j ∷ []) ≡ (has_kind kind jobs || bytes_eq j.kind kind)
has_kind-append kind [] j = ground arith
has_kind-append kind (i ∷ jobs) j = ground (arith, has_kind-append kind jobs j)

bytes_eq_comm : (a b : Bytes) → bytes_eq a b ≡ bytes_eq b a
bytes_eq_comm a b = ground (arith, bytes_eq_iff a b, bytes_eq_iff b a)

AreDistinct-append :
    (jobs : List Job) (j : Job)
    → AreDistinct jobs
    → has_kind j.kind jobs ≡ false
    → AreDistinct (jobs ++ j ∷ [])
AreDistinct-append [] j d h = (refl, tt)
AreDistinct-append (i ∷ jobs) j d h = (
  ground (arith, has_kind-append i.kind jobs j, bytes_eq_comm i.kind j.kind, d.0, h),
  AreDistinct-append jobs j d.1 (ground (arith, h)),
)

refresh-IsQueue :
    (kind : Bytes) (work : Work) (s : State) → IsQueue s → IsQueue (refresh kind work s)
unfolding refresh is_queued
refresh-IsQueue kind work s q = elim (Bool-cases (is_queued kind s)) [
  | inl e ↦ rw e q
  | inr e ↦
      let j : Job = record { kind = kind; work = work } in
      rw e (record {
        distinct = AreDistinct-append s.jobs j q.distinct (sym (q.flags kind) ∙ e);
        flags = λ k.
            ground
              (arith, lookup-insert kind k true s.queued, has_kind-append k s.jobs j, q.flags k);
      })
]

run_job-IsQueue : (s : State) → IsQueue s → IsQueue (run_job s).0
unfolding run_job is_queued
run_job-IsQueue s q = go s.jobs refl
  where
    go : (jobs : List Job) → s.jobs ≡ jobs → IsQueue (run_job s).0
    go [] e = rw (e, run_job) q
    go (j ∷ js) e =
        let d : AreDistinct (j ∷ js) = rw e at q.distinct in
        rw (e, run_job)
          (record {
            distinct = d.1;
            flags = λ k.
                let f : is_queued k s ≡ has_kind k (j ∷ js) = q.flags k ∙ ap (has_kind k) e in
                ground
                  (arith, lookup-insert j.kind k false s.queued, f, d.0, bytes_eq_iff j.kind k);
          })

connect-IsQueue : (s : State) → IsQueue s → IsQueue (record s { connected = true })
unfolding is_queued
connect-IsQueue s q = record { distinct = q.distinct; flags = q.flags }

-- The lists that an event of a kind concerns.
abbrev pub concerns : Bytes → List Bytes
concerns kind =
    if bytes_eq kind (codes "presence_updated")
    then codes "friends" ∷ []
    else if bytes_eq kind (codes "friend_request_received")
    then codes "requests" ∷ []
    else if bytes_eq kind (codes "friend_request_authorized")
        || bytes_eq kind (codes "friend_deleted")
    then codes "friends" ∷ codes "requests" ∷ []
    else if bytes_eq kind (codes "friend_invitation_received")
    then codes "invitations" ∷ []
    else []

-- What a person at the connection sees: a frame arrives, or the worker does a job.
pub data Event : Type 0 where
  arrives : Bytes → Event
  works : Event

module _ (parse_json : Bytes → Option Json) (dump : Json → Option Bytes)
    (truncated : Bytes → ℤ) where
  on_message-IsQueue :
      (m : Message) (s : State) → IsQueue s → IsQueue (on_message parse_json dump truncated m s)
  unfolding on_message
  on_message-IsQueue m s q =
      let kind = kind_of parse_json dump truncated m in
      let relation =
        bytes_eq kind (codes "friend_request_authorized")
        || bytes_eq kind (codes "friend_deleted") in
      let c1 = bytes_eq kind (codes "presence_updated") || relation in
      let c2 = bytes_eq kind (codes "friend_request_received") || relation in
      let a = if c1 then refresh (codes "friends") friend_list s else s in
      let qa : IsQueue a = when c1 (codes "friends") friend_list s q in
      let b = if c2 then refresh (codes "requests") friend_requests a else a in
      let qb : IsQueue b = when c2 (codes "requests") friend_requests a qa in
      when (bytes_eq kind (codes "friend_invitation_received")) (codes "invitations")
        invitations_and_sync b qb
    where
      when :
          (c : Bool) (kind : Bytes) (work : Work) (s : State)
          → IsQueue s
          → IsQueue (if c then refresh kind work s else s)
      when true kind work s q = refresh-IsQueue kind work s q
      when false kind work s q = q

  on_frame-IsQueue :
      (frame : Bytes) (s : State)
      → IsQueue s
      → IsQueue (on_frame parse_json dump truncated frame s).0
  unfolding on_frame
  on_frame-IsQueue frame s q = go (envelope_type frame) refl
    where
      told :
          IsQueue (elim (read_message frame) [
            | value m ↦ on_message parse_json dump truncated m s
            | _ ↦ s
          ])
      told = said (read_message frame)
        where
          said :
              (r : Read Message)
              → IsQueue (elim r [ value m ↦ on_message parse_json dump truncated m s | _ ↦ s ])
          said (value m) = on_message-IsQueue m s q
          said missing = q
          said outside = q

      opened : IsQueue (open_connection parse_json dump truncated s)
      opened = refresh-IsQueue (codes "invitations") invitations _ (
          refresh-IsQueue (codes "requests") friend_requests _
            (refresh-IsQueue (codes "friends") friend_list _ (connect-IsQueue s q)))

      go :
          (r : Read ℕ)
          → envelope_type frame ≡ r
          → IsQueue (on_frame parse_json dump truncated frame s).0
      go missing e = rw (e, on_frame) told
      go outside e = rw (e, on_frame) told
      go (value type) e = elim (Bool-cases (type == type_handover_result)) [
        | inl f ↦ rw (e, f, on_frame) opened
        | inr f ↦ elim (Bool-cases (type == type_reset)) [
          | inl g ↦ rw (e, f, g, on_frame) q
          | inr g ↦ rw (e, f, g, on_frame) told
        ]
      ]

  pub run : List Event → State → State
  run [] s = s
  run (arrives frame ∷ es) s = run es (on_frame parse_json dump truncated frame s).0
  run (works ∷ es) s = run es (run_job s).0

  -- In any order of frames and of jobs done, the jobs that wait are of different kinds, and the flags say
  -- which: a burst of deliveries for one list costs one fetch at a time.
  pub run-IsQueue : (es : List Event) (s : State) → IsQueue s → IsQueue (run es s)
  unfolding run
  run-IsQueue [] s q = q
  run-IsQueue (arrives frame ∷ es) s q = run-IsQueue es _ (on_frame-IsQueue frame s q)
  run-IsQueue (works ∷ es) s q = run-IsQueue es _ (run_job-IsQueue s q)

  asked : Bool → Bytes → Work → State → State
  asked c kind work s = if c then refresh kind work s else s
