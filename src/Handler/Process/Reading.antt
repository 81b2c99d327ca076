-- ===== src/Handler/Process/Reading.antt =====
-- How `process` of chromatic_imap/chromatic_imap_handler.cpp puts the pieces that it receives together.
use chromatic_imap_cplus_plu.Handler.Process.{
  leb, no_packet_error, error_packet, take_request, codes, find, const_command_buffer_length, found,
  Handler, process, process_loop, sizeof_int, Server, clear_front, recv,
}
use chromatic_imap_cplus_plu.Handler.Strings.Laws.{find-none, Without}
use chromatic_imap_cplus_plu.Text.{c_str, Str}
use chromatic_imap_cplus_plu.Prelude.{
  All-append, Bool-cases, ltb, append-nil, length, replicate, ℕ, zero, suc, ◌+◌, ◌≡◌, ◌≢◌, refl, ap,
  ◌∙◌, [], ◌∷◌, ◌++◌, List, arith, ◌≤◌, ◌<◌, true, false, inl, inr, drop, if◌then◌else◌,
}

c_str-stop : (s t : Str) → Without 0 s → c_str (s ++ 0 ∷ t) ≡ s
c_str-stop [] t w = refl
c_str-stop (zero ∷ s) t w = elim (w.0 refl) [ ]
c_str-stop (suc c ∷ s) t w = ap (◌∷◌ (suc c)) (c_str-stop s t w.1)

c_str-Without : (s : Str) → Without 0 s → c_str s ≡ s
c_str-Without [] w = refl
c_str-Without (zero ∷ s) w = elim (w.0 refl) [ ]
c_str-Without (suc c ∷ s) w = ap (◌∷◌ (suc c)) (c_str-Without s w.1)

drop-nil : (k : ℕ) → drop {A = ℕ} k [] ≡ []
drop-nil zero = refl
drop-nil (suc k) = refl

c_str-zeros : (s : Str) (m : ℕ) → Without 0 s → c_str (s ++ replicate m 0) ≡ s
c_str-zeros s zero w = rw (append-nil s) (c_str-Without s w)
c_str-zeros s (suc m) w = c_str-stop s (replicate m 0) w

-- What is shown of a buffer that a text fills in part, from some place on.
c_str-part : (k m : ℕ) (s : Str) → Without 0 s → c_str (drop k (s ++ replicate m 0)) ≡ drop k s
c_str-part zero m s w = c_str-zeros s m w
c_str-part (suc k) zero [] w = refl
c_str-part (suc k) (suc m) [] w = c_str-part k m [] w ∙ drop-nil k
c_str-part (suc k) m (c ∷ s) w = c_str-part k m s w.1

-- The rest of the zeros that the buffer starts with.
fill :
    (n : ℕ) (s : Str)
    → length s ≤ n
    → (m : ℕ) × (recv s (replicate n 0) ≡ s ++ replicate m 0) × (length s + m ≡ n)
fill n [] l = (n, refl, omega arith)
fill zero (c ∷ s) l = ground arith
fill (suc n) (c ∷ s) l = let (m, e, q) = fill n s (omega arith) in (m, ap (◌∷◌ c) e, omega arith)

-- What the first piece is read as.
first_read : (n : ℕ) (p : Str) → Without 0 p → length p < n → c_str (recv p (replicate n 0)) ≡ p
first_read n p w l = let (m, e, q) = fill n p (omega arith) in rw e (c_str-zeros p m w)

-- The bytes of one piece that still stand in the buffer behind the next, and are read with it: a
-- piece of at least 4 bytes that is shorter than the one before leaves its end in sight.
abbrev pub leftover : Str → Str → Str
leftover p q = if ltb (length q) sizeof_int then [] else drop (length q) p

c_str-append : (q t : Str) → Without 0 q → c_str (q ++ t) ≡ q ++ c_str t
c_str-append [] t w = refl
c_str-append (zero ∷ q) t w = elim (w.0 refl) [ ]
c_str-append (suc c ∷ q) t w = ap (◌∷◌ (suc c)) (c_str-append q t w.1)

drop-drop_four :
    (n : ℕ) (buf : Str) → drop n (drop sizeof_int buf) ≡ drop (suc (suc (suc (suc n)))) buf
drop-drop_four n [] = drop-nil n
drop-drop_four n (a ∷ []) = drop-nil n
drop-drop_four n (a ∷ b ∷ []) = drop-nil n
drop-drop_four n (a ∷ b ∷ c ∷ []) = drop-nil n
drop-drop_four n (a ∷ b ∷ c ∷ d ∷ buf) = refl

-- The buffer behind a text read over one whose first bytes are cleared.
behind-cleared :
    (q buf : Str)
    → c_str (drop (length q) (clear_front buf))
      ≡ (if ltb (length q) sizeof_int then [] else c_str (drop (length q) buf))
behind-cleared [] buf = refl
behind-cleared (a ∷ []) buf = refl
behind-cleared (a ∷ b ∷ []) buf = refl
behind-cleared (a ∷ b ∷ c ∷ []) buf = refl
behind-cleared (a ∷ b ∷ c ∷ d ∷ q) buf = rw (drop-drop_four (length q) buf) (ground arith)

-- What the second piece is read as: itself and the leftover of the first.
second_read :
    (n : ℕ) (p q : Str)
    → Without 0 p
    → Without 0 q
    → length p < n
    → c_str (recv q (clear_front (recv p (replicate n 0)))) ≡ q ++ leftover p q
second_read n p q w v l =
    let (m, e, o) = fill n p (omega arith) in
    c_str-append q (drop (length q) (clear_front (recv p (replicate n 0)))) v
    ∙ ap (◌++◌ q)
        (behind-cleared q (recv p (replicate n 0)) ∙ rw (e, c_str-part (length q) m p w) refl)

Without-drop : (c k : ℕ) (s : Str) → Without c s → Without c (drop k s)
Without-drop c zero s w = w
Without-drop c (suc k) [] w = w
Without-drop c (suc k) (d ∷ s) w = Without-drop c k s w.1

Without-leftover : (c : ℕ) (p q : Str) → Without c p → Without c (leftover p q)
Without-leftover c p q w = elim (Bool-cases (ltb (length q) sizeof_int)) [
  | inl e ↦ rw e tt
  | inr e ↦ rw e (Without-drop c (length q) p w)
]

no_byte :
    (c : ℕ) (p q : Str)
    → Without c p
    → Without c q
    → found (find (c ∷ []) (p ++ (q ++ leftover p q))) ≡ false
no_byte c p q w v = ap found (
    find-none c (p ++ (q ++ leftover p q)) (
      All-append (λ d. d ≢ c) p (q ++ leftover p q) w
        (All-append (λ d. d ≢ c) q (leftover p q) v (Without-leftover c p q w))))

module _ (server : Server) where
  open server use {State}

  loop-read :
      (piece rdbuf text shown : Str) (pieces : List Str) (h : Handler State)
      → c_str (recv piece rdbuf) ≡ shown
      → found (find (3 ∷ []) (text ++ shown)) ≡ false
      → found (find (26 ∷ []) (text ++ shown)) ≡ false
      → found (find (codes "\n") (text ++ shown)) ≡ true
      → process_loop server (piece ∷ pieces) rdbuf text h
        ≡ (take_request server (text ++ shown) h, pieces)
  unfolding process_loop
  loop-read piece rdbuf text shown pieces h e e3 e26 e10 = rw (e, e3, e26, e10) refl

  loop-wait :
      (piece rdbuf text shown : Str) (pieces : List Str) (h : Handler State)
      → c_str (recv piece rdbuf) ≡ shown
      → found (find (3 ∷ []) (text ++ shown)) ≡ false
      → found (find (26 ∷ []) (text ++ shown)) ≡ false
      → found (find (codes "\n") (text ++ shown)) ≡ false
      → leb (length (text ++ shown)) const_command_buffer_length ≡ true
      → process_loop server (piece ∷ pieces) rdbuf text h
        ≡ process_loop server pieces (clear_front (recv piece rdbuf)) (text ++ shown) h
  unfolding process_loop
  loop-wait piece rdbuf text shown pieces h e e3 e26 e10 l = rw (e, e3, e26, e10, l) refl

  -- A request with a line feed that comes in one piece is handed on as it is, whatever the pieces
  -- behind it, which are left for the next run: it has no NUL, no control-C and no control-Z, and
  -- is shorter than the buffer.
  pub process-one_piece :
      (n : ℕ) (line : Str) (pieces : List Str) (h : Handler State)
      → length line < n
      → Without 0 line × Without 3 line × Without 26 line
      → found (find (codes "\n") line) ≡ true
      → process server n (line ∷ pieces) h
        ≡ (take_request server line (error_packet no_packet_error h), pieces)
  unfolding process
  process-one_piece n line pieces h l w e =
      loop-read line (replicate n 0) [] line pieces (error_packet no_packet_error h)
        (first_read n line w.0 l) (ap found (find-none 3 line w.1))
        (ap found (find-none 26 line w.2)) e

  -- A request that comes in two pieces is not always handed on as it was sent. Where the second
  -- piece has at least 4 bytes and is shorter than the first, the end of the first piece, as far as
  -- the second does not cover it, stands behind the two once more. The first piece is shorter than
  -- the buffer, of at most 1024 bytes and without a line feed, the whole has one, and none of the
  -- two has a NUL, a control-C or a control-Z.
  pub process-two_pieces :
      (n : ℕ) (p q : Str) (pieces : List Str) (h : Handler State)
      → length p < n
      → length p ≤ const_command_buffer_length
      → Without 0 p × Without 3 p × Without 26 p × Without 10 p
      → Without 0 q × Without 3 q × Without 26 q
      → found (find (codes "\n") (p ++ (q ++ leftover p q))) ≡ true
      → process server n (p ∷ q ∷ pieces) h
        ≡ (take_request server (p ++ (q ++ leftover p q)) (error_packet no_packet_error h), pieces)
  unfolding process
  process-two_pieces n p q pieces h l short wp wq e =
      loop-wait p (replicate n 0) [] p (q ∷ pieces) (error_packet no_packet_error h)
        (first_read n p wp.0 l) (ap found (find-none 3 p wp.1)) (ap found (find-none 26 p wp.2))
        (ap found (find-none 10 p wp.3)) (ground arith)
      ∙ loop-read q (clear_front (recv p (replicate n 0))) p (q ++ leftover p q) pieces
          (error_packet no_packet_error h) (second_read n p q wp.0 wq.0 l) (no_byte 3 p q wp.1 wq.1)
          (no_byte 26 p q wp.2 wq.2) e
