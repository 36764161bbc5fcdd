-- ===== src/Reporter/Framing.antt =====
-- The lines that the reporter serves do not depend on how the pipe's bytes come in.
use torch_mojo_backend.Prelude.{
  ℕ, ◌≡◌, refl, sym, ap, ◌∙◌, false, List, [], ◌∷◌, ◌++◌, ◌==◌, Bool-cases, inl, inr, append_assoc,
  append-nil,
}
use torch_mojo_backend.Reporter.{Text}
use torch_mojo_backend.Reporter.Loop.{
  World, Reporter, serve_line, serve_lines, in_front, split_lines, end_reporter, read_chunks,
}

abbrev pub bytes : List Text → Text
bytes [] = []
bytes (chunk ∷ chunks) = chunk ++ bytes chunks

front-append :
    (c : ℕ) (lines : List Text) (rest b : Text)
    → (c == 10) ≡ false
    → in_front c (lines ++ (split_lines (rest ++ b)).0, (split_lines (rest ++ b)).1) ≡ (
      (in_front c (lines, rest)).0 ++ (split_lines ((in_front c (lines, rest)).1 ++ b)).0,
      (split_lines ((in_front c (lines, rest)).1 ++ b)).1,
    )
unfolding split_lines
front-append c [] rest b e = rw e refl
front-append c (line ∷ lines) rest b e = refl

-- What is read later does not change the lines that are complete.
split_lines-append :
    (a b : Text)
    → (split_lines (a ++ b) ≡ (
      (split_lines a).0 ++ (split_lines ((split_lines a).1 ++ b)).0,
      (split_lines ((split_lines a).1 ++ b)).1,
    ))
unfolding split_lines
split_lines-append [] b = refl
split_lines-append (c ∷ a) b = elim (Bool-cases (c == 10)) [
  | inl e ↦ rw e (ap (λ p. ([] ∷ p.0, p.1)) (split_lines-append a b))
  | inr e ↦ rw e (
      ap (in_front c) (split_lines-append a b)
      ∙ front-append c (split_lines a).0 (split_lines a).1 b e)
]

serve_lines-append :
    (w : World) (a b : List Text) (r : Reporter)
    → serve_lines w (a ++ b) r ≡ serve_lines w b (serve_lines w a r)
unfolding serve_lines
serve_lines-append w [] b r = refl
serve_lines-append w (line ∷ a) b r = serve_lines-append w a b (serve_line w line r)

front-rest :
    (c : ℕ) (lines : List Text) (rest : Text)
    → (c == 10) ≡ false
    → (split_lines rest).0 ≡ []
    → (split_lines (in_front c (lines, rest)).1).0 ≡ []
unfolding split_lines
front-rest c [] rest e h = rw e (ap (λ l. (in_front c (l, (split_lines rest).1)).0) h)
front-rest c (line ∷ lines) rest e h = h

split_lines-rest : (a : Text) → (split_lines (split_lines a).1).0 ≡ []
unfolding split_lines
split_lines-rest [] = refl
split_lines-rest (c ∷ a) = elim (Bool-cases (c == 10)) [
  | inl e ↦ rw e (split_lines-rest a)
  | inr e ↦ rw e (front-rest c (split_lines a).0 (split_lines a).1 e (split_lines-rest a))
]

read_chunks-pending :
    (w : World) (pending : Text) (chunks : List Text) (r : Reporter)
    → (split_lines pending).0 ≡ []
    → read_chunks w pending chunks r
      ≡ end_reporter w (serve_lines w (split_lines (pending ++ bytes chunks)).0 r)
unfolding read_chunks
read_chunks-pending w pending [] r h =
    ap (λ l. end_reporter w (serve_lines w l r))
      (sym (ap (λ t. (split_lines t).0) (append-nil pending) ∙ h))
read_chunks-pending w pending (chunk ∷ chunks) r h =
    let cut = split_lines (pending ++ chunk) in
    read_chunks-pending w cut.1 chunks (serve_lines w cut.0 r) (split_lines-rest (pending ++ chunk))
    ∙ ap (end_reporter w)
        (sym (serve_lines-append w cut.0 (split_lines (cut.1 ++ bytes chunks)).0 r))
    ∙ ap (λ p. end_reporter w (serve_lines w p.0 r))
        (sym (split_lines-append (pending ++ chunk) (bytes chunks)))
    ∙ ap (λ t. end_reporter w (serve_lines w (split_lines t).0 r))
        (append_assoc pending chunk (bytes chunks))

-- However the bytes of the pipe are cut into reads: the reporter does with each complete line, in order,
-- what it does with it when all bytes are read at once, and drops what stands behind the last newline.
pub read_chunks-lines :
    (w : World) (chunks : List Text) (r : Reporter)
    → read_chunks w [] chunks r ≡ end_reporter w (serve_lines w (split_lines (bytes chunks)).0 r)
unfolding split_lines
read_chunks-lines w chunks r = read_chunks-pending w [] chunks r refl
