-- ===== src/Ipc/Transport/Framing.antt =====
-- Messages through a stream socket: what `_send_msg` sent, `_recv_msg` gives back
-- (python_binding/lsm/_transport.py).
use mathlib.Core.List.{append_assoc}
use libstoragemgmt.Base.{
  ℕ, zero, suc, ◌+◌, ◌<◌, ◌≡◌, refl, ap, ◌∙◌, ◌/◌, false, some, List, [], ◌∷◌, ◌++◌, ltb,
  Bool-cases, inl, inr, arith, length, length-append,
}
use libstoragemgmt.Text.{str, zfill, zeros, decimal}
use libstoragemgmt.Text.Numbers.{int-zfill, length-zfill, ten_to}
use libstoragemgmt.Data.Value
use libstoragemgmt.Ipc.Raised.{Raised, eof, ok, err}
use libstoragemgmt.Ipc.Utf8.{IsAscii, encode-of_ascii, decode-of_ascii}
use libstoragemgmt.Ipc.Transport.{
  Socket, broken, frame, hdr_len, read_all, read_body, recv_msg, as_lsm_error,
}
use libstoragemgmt.Ipc.Transport.Reading.{IsStream, prefix_split, read_loop-all, read_loop-eof}

IsAscii-append : (s t : List ℕ) → IsAscii s → IsAscii t → IsAscii (s ++ t)
IsAscii-append [] t h k = k
IsAscii-append (c ∷ s) t h k = (h.0, IsAscii-append s t h.1 k)

IsAscii-zeros : (k : ℕ) → IsAscii (zeros k)
unfolding zeros
IsAscii-zeros zero = tt
IsAscii-zeros (suc k) = (omega arith, IsAscii-zeros k)

IsAscii-decimal : (f n : ℕ) → IsAscii (decimal f n)
unfolding decimal
IsAscii-decimal zero n = tt
IsAscii-decimal (suc f) n = elim (Bool-cases (ltb n 10)) [
  | inl small ↦ rw small (ground arith, tt)
  | inr large ↦
      rw large
        (IsAscii-append (decimal f (n / 10)) _ (IsAscii-decimal f (n / 10)) (omega arith, tt))
]

IsAscii-zfill : (w n : ℕ) → IsAscii (zfill w (str n))
unfolding zfill str
IsAscii-zfill w n = IsAscii-append (zeros _) _ (IsAscii-zeros _) (IsAscii-decimal (suc n) n)

-- A text in ASCII with at least one character, and few enough for the header.
pub record IsMessage (msg : List ℕ) : Type 0 where
  pub ascii : IsAscii msg
  pub some_text : 0 < length msg
  pub short : length msg < 10_000_000_000

abbrev pub header : List ℕ → List ℕ
header msg = zfill hdr_len (str (length msg))

length-header : (msg : List ℕ) → IsMessage msg → length (header msg) ≡ hdr_len
unfolding ten_to
length-header msg m = length-zfill 9 (length msg) m.short

pub frame-of_ascii : (msg : List ℕ) → IsAscii msg → frame msg ≡ some (header msg ++ msg)
unfolding frame
frame-of_ascii msg h =
    encode-of_ascii (header msg ++ msg)
      (IsAscii-append (header msg) msg (IsAscii-zfill hdr_len (length msg)) h)

module _ {S : Type 0} (sock : Socket S) (pending : S → List ℕ)
    (stream : IsStream sock pending) where
  read_all-of_ascii :
      (l : ℕ) (s : S) (t rest : List ℕ)
      → pending s ≡ t ++ rest
      → length t ≡ l
      → 0 < l
      → IsAscii t
      → (s' : S) × (read_all sock l s ≡ (ok t, s')) × (pending s' ≡ rest)
  unfolding read_all
  read_all-of_ascii l s t rest e n h a =
      let (s', all, left) =
        read_loop-all sock pending stream l l [] s t rest e (omega arith) (omega arith) in
      let at_least : ltb l 1 ≡ false = ground arith in
      (s', rw (at_least, all, decode-of_ascii t a) refl, left)

  -- `_recv_msg` gives the message whose frame is next, and leaves what is behind it.
  pub recv_msg-frame :
      (msg : List ℕ) (s : S) (b rest : List ℕ)
      → IsMessage msg
      → frame msg ≡ some b
      → pending s ≡ b ++ rest
      → (s' : S) × (recv_msg sock s ≡ (ok msg, s')) × (pending s' ≡ rest)
  unfolding recv_msg read_body as_lsm_error
  recv_msg-frame msg s b rest m f e =
      let sent : b ≡ header msg ++ msg = cc (frame-of_ascii msg m.ascii) in
      let (s1, first, left) =
        read_all-of_ascii hdr_len s (header msg) (msg ++ rest)
          (e ∙ ap (λ x. x ++ rest) sent ∙ append_assoc (header msg) msg rest) (length-header msg m)
          (omega arith) (IsAscii-zfill hdr_len (length msg)) in
      let (s2, second, left') =
        read_all-of_ascii (length msg) s1 msg rest left refl m.some_text m.ascii in
      (s2, rw (first, int-zfill hdr_len (length msg), second) refl, left')

  read_all-eof :
      (l : ℕ) (s : S) → length (pending s) < l → (s' : S) × (read_all sock l s ≡ (err eof, s'))
  unfolding read_all
  read_all-eof l s h =
      let (s', raised) = read_loop-eof sock pending stream l l [] s (omega arith) (omega arith) in
      let at_least : ltb l 1 ≡ false = ground arith in (s', rw (at_least, raised) refl)

  -- what `_recv_msg` raises at the end of the stream
  abbrev pub eof_error : Raised
  eof_error = broken "Error while reading a message from the plug-in, EOF" Value.null

  -- A stream that ends inside a frame, or before one, is an LsmError and never a SocketEOF.
  pub recv_msg-truncated :
      (msg : List ℕ) (s : S) (b missing : List ℕ)
      → IsMessage msg
      → frame msg ≡ some b
      → b ≡ pending s ++ missing
      → 0 < length missing
      → (s' : S) × (recv_msg sock s ≡ (err eof_error, s'))
  unfolding recv_msg read_body as_lsm_error
  recv_msg-truncated msg s b missing m f e some_missing =
      let whole : header msg ++ msg ≡ pending s ++ missing = cc (frame-of_ascii msg m.ascii) in
      let ten : length (header msg) ≡ hdr_len = length-header msg m in
      elim (Bool-cases (ltb (length (pending s)) hdr_len)) [
        | inl short ↦
            let (s', raised) = read_all-eof hdr_len s (ground arith) in (s', rw raised refl)
        | inr long ↦
            let (u, e', tail) =
              prefix_split (header msg) msg (pending s) missing whole (ground arith) in
            let (s1, first, left) =
              read_all-of_ascii hdr_len s (header msg) u e' ten (omega arith)
                (IsAscii-zfill hdr_len (length msg)) in
            let len : length msg ≡ length u + length missing =
              ap length tail ∙ length-append u missing in
            let less : length (pending s1) < length msg = rw left (omega arith) in
            let (s2, raised) = read_all-eof (length msg) s1 less in
            (s2, rw (first, int-zfill hdr_len (length msg), raised) refl)
      ]
