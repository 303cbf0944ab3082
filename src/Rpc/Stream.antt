-- ===== src/Rpc/Stream.antt =====
-- raftkv/raft-rpc: what the loop of `_OnMessage` does with the bytes of a connection.
use ww_raft_kv.Prelude.{
  List, Option, [], ap, arith, drop, inl, inr, length, length-drop, none, none-some, refl, some,
  suc, sym, take, zero, ℕ, ◌++◌, ◌+◌, ◌-◌, ◌<◌, ◌∙◌, ◌∷◌, ◌≡◌, ◌≤◌, ◌⊎◌,
}
use ww_raft_kv.Rpc.Buffer.{
  Drained, Round, Verdict, act, again, broken, drain, go_on, leave, left, on_buffer, settle, stop,
  stuck,
}
use ww_raft_kv.Rpc.Bytes.{word}
use ww_raft_kv.Rpc.Framing.{read_frame-frame, read_frame-take, read_header-length}
use ww_raft_kv.Rpc.Header.{
  RaftRpcFixedHeader, Reading, frame, judge, overrun, packet, read_frame, read_header, waits,
  wrong_checksum, wrong_magic,
}

length-drop_le : (n : ℕ) (b : List ℕ) → length (drop n b) ≤ length b
length-drop_le n b = omega (arith, length-drop n b)

left_over : Reading → ℕ
left_over (packet body rest) = suc (length rest)
left_over _ = 0

judge-left_over :
    (n : ℕ) (o : Option (RaftRpcFixedHeader × List ℕ)) (b : List ℕ)
    → ((header : RaftRpcFixedHeader) (rest : List ℕ)
        → o ≡ some (header, rest)
        → length b ≡ 16 + length rest)
    → left_over (judge n o) ≤ length b
unfolding judge left_over
judge-left_over n none b h = omega arith
judge-left_over n (some (header, rest)) b h =
    let step = h header rest refl in
    let tail = length-drop_le (header.total_length - 16) rest in ground arith

-- A packet is taken with its header, so fewer bytes are left.
read_frame-shorter :
    (b body rest : List ℕ) → read_frame b ≡ packet body rest → length rest < length b
unfolding read_frame left_over
read_frame-shorter b body rest h = omega (
  arith,
  judge-left_over (length b) (read_header b) b (λ header r. read_header-length b header r),
  ap left_over h,
)

module _ {ℓ} {S : Type ℓ} where
  pub Round-cases :
      (r : Round S)
      → ((end : Drained S) × (r ≡ stop end)) ⊎ ((rest : List ℕ) × (t : S) × (r ≡ again rest t))
  Round-cases (stop end) = inl (end, refl)
  Round-cases (again rest t) = inr (rest, t, refl)

  rest_of : Round S → ℕ
  rest_of (stop end) = 0
  rest_of (again rest t) = suc (length rest)

  rest_of-settle : (v : Verdict S) (rest : List ℕ) → rest_of (settle v rest) ≤ suc (length rest)
  unfolding rest_of settle
  rest_of-settle (go_on s) rest = omega arith
  rest_of-settle (leave s) rest = omega arith
  rest_of-settle (stuck s) rest = omega arith

  module _ (handle : List ℕ → S → Verdict S) where
    rest_of-act : (r : Reading) (b : List ℕ) (s : S) → rest_of (act handle r b s) ≤ left_over r
    unfolding rest_of act left_over
    rest_of-act waits b s = omega arith
    rest_of-act wrong_magic b s = omega arith
    rest_of-act (wrong_checksum rest) b s = omega arith
    rest_of-act overrun b s = omega arith
    rest_of-act (packet body rest) b s = rest_of-settle (handle body s) rest

    -- A round with another after it leaves fewer bytes.
    round_shorter :
        (b rest : List ℕ) (s t : S)
        → act handle (read_frame b) b s ≡ again rest t
        → length rest < length b
    unfolding read_frame rest_of
    round_shorter b rest s t h = omega (
      arith,
      judge-left_over (length b) (read_header b) b (λ header r. read_header-length b header r),
      rest_of-act (read_frame b) b s,
      ap rest_of h,
    )

    drain-stop :
        (n : ℕ) (b : List ℕ) (s : S) (end : Drained S)
        → act handle (read_frame b) b s ≡ stop end
        → drain handle (suc n) b s ≡ end
    unfolding drain
    drain-stop n b s end h = rw (h, drain) refl

    drain-again :
        (n : ℕ) (b rest : List ℕ) (s t : S)
        → act handle (read_frame b) b s ≡ again rest t
        → drain handle (suc n) b s ≡ drain handle n rest t
    unfolding drain
    drain-again n b rest s t h = rw (h, drain) refl

    drain_zero : (n : ℕ) (b : List ℕ) (s : S) → length b ≤ 0 → drain handle n b s ≡ left b s
    unfolding drain act read_frame judge read_header word
    drain_zero zero b s h = refl
    drain_zero (suc n) [] s h = refl
    drain_zero (suc n) (x ∷ b) s h = absurd (omega arith)

    drain_fuel :
        (n m : ℕ) (b : List ℕ) (s : S)
        → length b ≤ n
        → length b ≤ m
        → drain handle n b s ≡ drain handle m b s
    unfolding drain
    drain_fuel zero m b s p q = sym (drain_zero m b s p)
    drain_fuel (suc n) zero b s p q = drain_zero (suc n) b s q
    drain_fuel (suc n) (suc m) b s p q = elim (Round-cases (act handle (read_frame b) b s)) [
      | inl (end, e) ↦ rw (e, drain) refl
      | inr (rest, t, e) ↦
          let less = round_shorter b rest s t e in
          rw (e, drain) (drain_fuel n m rest t (omega arith) (omega arith))
    ]

    act-go_on :
        (b body rest : List ℕ) (s t : S)
        → read_frame b ≡ packet body rest
        → handle body s ≡ go_on t
        → act handle (read_frame b) b s ≡ again rest t
    unfolding act settle
    act-go_on b body rest s t h g = rw (h, g) refl

    act-stuck :
        (b body rest : List ℕ) (s t : S)
        → read_frame b ≡ packet body rest
        → handle body s ≡ stuck t
        → act handle (read_frame b) b s ≡ stop (broken t)
    unfolding act settle
    act-stuck b body rest s t h g = rw (h, g) refl

    -- The loop goes on with a state and the bytes behind a message that it could take.
    pub on_buffer-go_on :
        (b body rest : List ℕ) (s t : S)
        → read_frame b ≡ packet body rest
        → handle body s ≡ go_on t
        → on_buffer handle b s ≡ on_buffer handle rest t
    unfolding on_buffer
    on_buffer-go_on b body rest s t h g =
        let round = act-go_on b body rest s t h g in
        let less = round_shorter b rest s t round in
        drain_fuel (length b) (suc (length b)) b s (omega arith) (omega arith)
        ∙ drain-again (length b) b rest s t round
        ∙ drain_fuel (length b) (length rest) rest t (omega arith) (omega arith)

    pub on_buffer-stuck :
        (b body rest : List ℕ) (s t : S)
        → read_frame b ≡ packet body rest
        → handle body s ≡ stuck t
        → on_buffer handle b s ≡ broken t
    unfolding on_buffer
    on_buffer-stuck b body rest s t h g =
        drain_fuel (length b) (suc (length b)) b s (omega arith) (omega arith)
        ∙ drain-stop (length b) b s (broken t) (act-stuck b body rest s t h g)

    pub on_buffer-waits :
        (b : List ℕ) (s : S) → read_frame b ≡ waits → on_buffer handle b s ≡ left b s
    unfolding on_buffer act
    on_buffer-waits b s h =
        drain_fuel (length b) (suc (length b)) b s (omega arith) (omega arith)
        ∙ drain-stop (length b) b s (left b s) (rw h refl)

    -- The messages one after the other, when each lets the loop go on.
    unfoldable pub handle_all : List (List ℕ) → S → Option S
    handle_all [] s = some s
    handle_all (body ∷ bodies) s = elim (handle body s) [
      | go_on t ↦ handle_all bodies t
      | leave t ↦ none
      | stuck t ↦ none
    ]

-- The frames one after the other, and what comes behind them.
unfoldable pub stream : List (List ℕ) → List ℕ → List ℕ
stream [] tail = tail
stream (body ∷ bodies) tail = frame body ++ stream bodies tail

-- Each message fits the 32 bits of `_Total_length`, its header included.
unfoldable pub Fits : List (List ℕ) → Type 0
Fits [] = Unit
Fits (body ∷ bodies) = (16 + length body < 4294967296) × Fits bodies

module _ {ℓ} {S : Type ℓ} (handle : List ℕ → S → Verdict S) where
  Verdict-cases :
      (v : Verdict S) → ((t : S) × (v ≡ go_on t)) ⊎ ((t : S) × ((v ≡ leave t) ⊎ (v ≡ stuck t)))
  Verdict-cases (go_on t) = inl (t, refl)
  Verdict-cases (leave t) = inr (t, inl refl)
  Verdict-cases (stuck t) = inr (t, inr refl)

  -- However the bytes of a connection are cut: the messages that are there to their end are handled
  -- in the order in which they were sent, and the first bytes of the next one stay in the buffer. This
  -- is for messages that, with their header, are shorter than 2 ^ 32 bytes, none of which makes the
  -- loop return.
  pub on_buffer-stream :
      (bodies : List (List ℕ)) (next : List ℕ) (n : ℕ) (s t : S)
      → Fits (next ∷ bodies)
      → n < 16 + length next
      → handle_all handle bodies s ≡ some t
      → on_buffer handle (stream bodies (take n (frame next))) s ≡ left (take n (frame next)) t
  unfolding stream Fits handle_all
  on_buffer-stream [] next n s t fits less h =
      ap (λ x. on_buffer handle (take n (frame next)) x)
        (ap (λ o. elim o [ none ↦ s | some x ↦ x ]) h)
      ∙ on_buffer-waits handle (take n (frame next)) t (read_frame-take next n fits.0 less)
  on_buffer-stream (body ∷ bodies) next n s t fits less h = elim (Verdict-cases (handle body s)) [
    | inl (u, e) ↦
        on_buffer-go_on handle (frame body ++ stream bodies (take n (frame next))) body
          (stream bodies (take n (frame next))) s u
          (read_frame-frame body (stream bodies (take n (frame next))) fits.1.0) e
        ∙ on_buffer-stream bodies next n u t (fits.0, fits.1.1) less (rw (e, handle_all) at h)
    | inr (u, inl e) ↦ absurd (none-some (rw (e, handle_all) at h))
    | inr (u, inr e) ↦ absurd (none-some (rw (e, handle_all) at h))
  ]
