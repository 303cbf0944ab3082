-- ===== src/Rpc/Framing.antt =====
-- raftkv/raft-rpc: what the reader of a connection sees of the frames that were sent.
use ww_raft_kv.Prelude.{
  List, Option-cases, [], ap, append-nil, arith, drop, eq→==, ge→ltb, if◌then◌else◌, inl, inr,
  le-cases, length, length-append, length-take, ltb, lt→ltb, none, none-some, refl, some, suc, sym,
  take, ℕ, ◌%◌, ◌*◌, ◌++◌, ◌+◌, ◌-◌, ◌/◌, ◌<◌, ◌∙◌, ◌∷◌, ◌≡◌, ◌≤◌,
}
use ww_raft_kv.Rpc.Bytes.{be32, be64, length-word, word, word-be32}
use ww_raft_kv.Rpc.Header.{
  RaftRpcFixedHeader, calculate_header_checksum, checksum_lt, frame, header_size, judge,
  magic_number, overrun, packet, read_frame, read_header, waits,
}

read_header-be :
    (high low total checksum : ℕ) (rest : List ℕ)
    → high < 4294967296
    → low < 4294967296
    → total < 4294967296
    → checksum < 4294967296
    → read_header (be32 high ++ (be32 low ++ (be32 total ++ (be32 checksum ++ rest))))
      ≡ some (
        record {
          magic_number = high * 4294967296 + low;
          total_length = total;
          header_checksum = checksum;
        },
        rest,
      )
unfolding read_header
read_header-be high low total checksum rest h l t c =
    rw
      (
        word-be32 high (be32 low ++ (be32 total ++ (be32 checksum ++ rest))) h,
        word-be32 low (be32 total ++ (be32 checksum ++ rest)) l,
        word-be32 total (be32 checksum ++ rest) t,
        word-be32 checksum rest c,
      )
      refl

-- A header is 16 bytes.
pub read_header-length :
    (b : List ℕ) (header : RaftRpcFixedHeader) (rest : List ℕ)
    → read_header b ≡ some (header, rest)
    → length b ≡ 16 + length rest
unfolding read_header
read_header-length b header rest h = elim (Option-cases (word b)) [
  | inl e ↦ absurd (none-some (rw e at h))
  | inr (p, e) ↦ elim (Option-cases (word p.1)) [
    | inl f ↦ absurd (none-some (rw (e, f) at h))
    | inr (q, f) ↦ elim (Option-cases (word q.1)) [
      | inl g ↦ absurd (none-some (rw (e, f, g) at h))
      | inr (r, g) ↦ elim (Option-cases (word r.1)) [
        | inl k ↦ absurd (none-some (rw (e, f, g, k) at h))
        | inr (s, k) ↦ omega (
          arith,
          length-word b p.0 p.1 e,
          length-word p.1 q.0 q.1 f,
          length-word q.1 r.0 r.1 g,
          length-word r.1 s.0 s.1 k,
          ap {B = ℕ} (λ o. elim o [ none ↦ 0 | some x ↦ length x.1 ]) (rw (e, f, g, k) at h),
        )
      ]
    ]
  ]
]

read_header_short : (b : List ℕ) → length b < header_size → read_header b ≡ none
read_header_short b h = elim (Option-cases (read_header b)) [
  | inl e ↦ e
  | inr (x, e) ↦ absurd (omega (arith, read_header-length b x.0 x.1 e))
]

-- A header that was written for `total` bytes, at a time when `readable` bytes are there.
judge_written :
    (readable total : ℕ) (rest : List ℕ)
    → judge readable (
        some (
          record {
            magic_number = magic_number;
            total_length = total;
            header_checksum = calculate_header_checksum magic_number total;
          },
          rest,
        ))
      ≡ (if ltb readable total
          then waits
          else if ltb total header_size
          then overrun
          else packet (take (total - header_size) rest) (drop (total - header_size) rest))
unfolding judge
judge_written readable total rest =
    rw (eq→== (calculate_header_checksum magic_number total) _ refl) refl

-- The bytes of a frame with another message, or a part of one, behind its header.
framed : ℕ → List ℕ → List ℕ
framed total rest =
    be64 magic_number
    ++ (be32 total ++ (be32 (calculate_header_checksum magic_number total) ++ rest))

length-framed : (total : ℕ) (rest : List ℕ) → length (framed total rest) ≡ 16 + length rest
unfolding framed be64 be32
length-framed total rest = omega arith

read_header-framed :
    (total : ℕ) (rest : List ℕ)
    → total < 4294967296
    → read_header (framed total rest)
      ≡ some (
        record {
          magic_number = magic_number;
          total_length = total;
          header_checksum = calculate_header_checksum magic_number total;
        },
        rest,
      )
unfolding framed be64 be32
read_header-framed total rest h =
    read_header-be (magic_number / 4294967296) (magic_number % 4294967296) total
      (calculate_header_checksum magic_number total) rest (omega arith) (omega arith) h
      (checksum_lt magic_number total)

sixteen :
    (n : ℕ)
    → 16 + n
      ≡ suc (
          suc (suc (suc (suc (suc (suc (suc (suc (suc (suc (suc (suc (suc (suc (suc n)))))))))))))))
sixteen n = omega arith

take-framed :
    (total n : ℕ) (rest : List ℕ) → take (16 + n) (framed total rest) ≡ framed total (take n rest)
unfolding framed be64 be32
take-framed total n rest = ap (λ k. take k (framed total rest)) (sixteen n)

read_frame-framed :
    (total : ℕ) (rest : List ℕ)
    → total < 4294967296
    → read_frame (framed total rest) ≡ (
        if ltb (16 + length rest) total
        then waits
        else if ltb total header_size
        then overrun
        else packet (take (total - header_size) rest) (drop (total - header_size) rest))
unfolding read_frame
read_frame-framed total rest h =
    rw (length-framed total rest, read_header-framed total rest h)
      (judge_written (16 + length rest) total rest)

frame-framed :
    (body rest : List ℕ)
    → 16 + length body < 4294967296
    → frame body ++ rest ≡ framed (16 + length body) (body ++ rest)
unfolding frame framed be64 be32
frame-framed body rest h = ap (λ t. framed t (body ++ rest)) (omega arith)

behind_header : (n : ℕ) → 16 + n - 16 ≡ n
behind_header n = omega arith

from_16 : (n : ℕ) → 16 ≤ n → 16 + (n - 16) ≡ n
from_16 n h = omega arith

take-frame :
    (body : List ℕ) (n : ℕ)
    → 16 + length body < 4294967296
    → take (16 + n) (frame body) ≡ framed (16 + length body) (take n body)
take-frame body n h =
    ap (λ l. take (16 + n) l) (sym (append-nil (frame body)) ∙ frame-framed body [] h)
    ∙ take-framed (16 + length body) n (body ++ [])
    ∙ ap (λ l. framed (16 + length body) (take n l)) (append-nil body)

take-append : (xs ys : List ℕ) → take (length xs) (xs ++ ys) ≡ xs
take-append [] ys = refl
take-append (x ∷ xs) ys = ap (λ l. x ∷ l) (take-append xs ys)

drop-append : (xs ys : List ℕ) → drop (length xs) (xs ++ ys) ≡ ys
drop-append [] ys = refl
drop-append (x ∷ xs) ys = drop-append xs ys

-- The reader takes a frame whole, and leaves the bytes behind it, as long as the number of bytes is
-- below 2 ^ 32.
pub read_frame-frame :
    (body rest : List ℕ)
    → 16 + length body < 4294967296
    → read_frame (frame body ++ rest) ≡ packet body rest
read_frame-frame body rest h = rw (frame-framed body rest h) (
    read_frame-framed (16 + length body) (body ++ rest) h
    ∙ rw
        (
          ge→ltb (16 + length (body ++ rest)) (16 + length body)
              (omega (arith, length-append body rest)),
          ge→ltb (16 + length body) 16 (omega arith),
          behind_header (length body),
          take-append body rest,
          drop-append body rest,
        )
        refl)

-- Of a frame that is not there to its end the reader takes nothing.
pub read_frame-take :
    (body : List ℕ) (n : ℕ)
    → 16 + length body < 4294967296
    → n < 16 + length body
    → read_frame (take n (frame body)) ≡ waits
unfolding read_frame judge
read_frame-take body n h less = elim (le-cases 16 n) [
  | inl long ↦ rw (sym (from_16 n long)) (
      rw (take-frame body (n - 16) h) (
        read_frame-framed (16 + length body) (take (n - 16) body) h
        ∙ rw
            (lt→ltb (16 + length (take (n - 16) body)) (16 + length body)
              (omega (arith, length-take (n - 16) body)))
            refl))
  | inr short ↦
      rw (read_header_short (take n (frame body)) (omega (arith, length-take n (frame body)))) refl
]
