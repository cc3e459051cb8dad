-- ===== src/Ssh/Exec/Laws.antt =====
-- How the loop of Lab12/exec_rsa.c that reads the output of the command ends.
use pus.Base.{
  ℕ, zero, suc, ◌+◌, ◌-◌, ◌≤◌, ◌<◌, ◌≡◌, refl, Bool, true, false, ◌&&◌, Option, none, some, List,
  [], ◌++◌, length, length-append, arith, ltb, leb, Option-cases, Bool-cases, inl, inr, ◌∙◌,
}
use pus.Base.Program.{returns}
use pus.Ssh.Session.{State, Trace, Libssh2}
use pus.Ssh.Exec.{buf_size, receive, read_loop}

-- What was read fits the buffer.
unfoldable pub fits_buffer : Option (List ℕ) → Bool
fits_buffer none = true
fits_buffer (some output) = leb (length output) buf_size

suc_add : (m n : ℕ) → suc m + n ≡ suc (m + n)
suc_add m n = omega arith

module _ (lib : Libssh2) where
  -- `libssh2_channel_read` gives no more bytes than it was asked for.
  abbrev pub ReadsFit : Type 0
  ReadsFit =
      (room : ℕ) (trace : Trace) (chunk : List ℕ)
      → lib.channel_read room trace ≡ some chunk
      → length chunk ≤ room

  -- A round whose read failed.
  read_loop_failed :
      (fuel extra : ℕ) (got : List ℕ) (s : State)
      → lib.channel_read (buf_size - length got) s.trace ≡ none
      → read_loop lib (suc fuel + extra) got s ≡ returns none s
  unfolding read_loop
  read_loop_failed fuel extra got s e = rw (suc_add fuel extra) (ground arith)

  -- A round that is the last.
  read_loop_last :
      (fuel extra : ℕ) (got chunk : List ℕ) (s : State)
      → lib.channel_read (buf_size - length got) s.trace ≡ some chunk
      → length chunk ≤ buf_size - length got
      → (ltb 0 (length chunk) && ltb (length got + length chunk) buf_size) ≡ false
      → read_loop lib (suc fuel + extra) got s ≡ returns (some (got ++ chunk)) s
  unfolding read_loop receive
  read_loop_last fuel extra got chunk s e fit h =
      rw (suc_add fuel extra) (ground (arith, length-append got chunk))

  -- A round that another follows.
  read_loop_more :
      (fuel extra : ℕ) (got chunk : List ℕ) (s : State)
      → lib.channel_read (buf_size - length got) s.trace ≡ some chunk
      → length chunk ≤ buf_size - length got
      → (ltb 0 (length chunk) && ltb (length got + length chunk) buf_size) ≡ true
      → read_loop lib (suc fuel + extra) got s ≡ read_loop lib (fuel + extra) (got ++ chunk) s
  unfolding read_loop receive
  read_loop_more fuel extra got chunk s e fit h =
      rw (suc_add fuel extra) (ground (arith, length-append got chunk))

  module _ (fits : ReadsFit) where
    -- With enough fuel the result is the same whatever fuel is added.
    pub read_loop_returns :
        (fuel : ℕ) (got : List ℕ) (s : State)
        → length got ≤ buf_size
        → buf_size - length got < fuel
        → (output : Option (List ℕ)) × ((extra : ℕ)
            → read_loop lib (fuel + extra) got s ≡ returns output s)
          × (fits_buffer output ≡ true)
    unfolding fits_buffer
    read_loop_returns zero got s h f = ground arith
    read_loop_returns (suc fuel) got s h f =
        elim (Option-cases (lib.channel_read (buf_size - length got) s.trace)) [
          | inl e ↦ (none, (λ extra. read_loop_failed fuel extra got s e), refl)
          | inr (chunk, e) ↦
              let fit : length chunk ≤ buf_size - length got =
                fits (buf_size - length got) s.trace chunk e in
              elim (Bool-cases (ltb 0 (length chunk) && ltb (length got + length chunk) buf_size)) [
                | inl more ↦
                    let (output, runs, small) =
                      read_loop_returns fuel (got ++ chunk) s
                        (ground (arith, length-append got chunk))
                        (ground (arith, length-append got chunk)) in
                    (
                      output,
                      (λ extra. read_loop_more fuel extra got chunk s e fit more ∙ runs extra),
                      small,
                    )
                | inr last ↦ (
                  some (got ++ chunk),
                  (λ extra. read_loop_last fuel extra got chunk s e fit last),
                  ground (arith, length-append got chunk),
                )
              ]
        ]

    -- The fuel of the model is enough: whatever fuel is added, the loop that fills the buffer of
    -- 4096 bytes returns the same, and what it returns fits the buffer, if each read gives at most
    -- the bytes it was asked for.
    pub read_loop_ends :
        (s : State)
        → (output : Option (List ℕ)) × ((extra : ℕ)
            → read_loop lib (suc buf_size + extra) [] s ≡ returns output s)
          × (fits_buffer output ≡ true)
    read_loop_ends s = read_loop_returns (suc buf_size) [] s (omega arith) (omega arith)
