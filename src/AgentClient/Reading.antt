-- ===== src/AgentClient/Reading.antt =====
-- agent_client.go: which text of a response the client returns.
use ship_grip_fim.Base.{
  true, false, ◌≡◌, refl, ap, ◌∙◌, ◌==◌, List, [], ◌∷◌, ◌++◌, Text, lit, any, All, split,
  split_by-append, split_by_whole, sym, str_eq, trim_space, split_by-ne-nil, unlines, append_assoc,
}
use ship_grip_fim.AgentClient.{is_sentinel, read_pieces, read_response}

-- A line of a response that is not the sentinel.
abbrev pub IsBodyLine : Text → Type 0
IsBodyLine l = (any (λ d. d == 10) l ≡ false) × (is_sentinel (l ++ (10 ∷ [])) ≡ false)

read_line :
    (l s : Text) → IsBodyLine l → read_response (l ++ (10 ∷ s)) ≡ l ++ (10 ∷ read_response s)
unfolding read_response read_pieces split
read_line l s h =
    let (p, ps, q) = split_by-ne-nil (λ d. d == 10) s in
    rw (split_by-append (λ d. d == 10) l 10 s h.0 refl, q, h.1) refl

read_sentinel :
    (l s : Text)
    → any (λ d. d == 10) l ≡ false
    → is_sentinel (l ++ (10 ∷ [])) ≡ true
    → read_response (l ++ (10 ∷ s)) ≡ []
unfolding read_response read_pieces split
read_sentinel l s h k =
    let (p, ps, q) = split_by-ne-nil (λ d. d == 10) s in
    rw (split_by-append (λ d. d == 10) l 10 s h refl, q, k) refl

read_rest : (s : Text) → any (λ d. d == 10) s ≡ false → is_sentinel s ≡ false → read_response s ≡ s
unfolding read_response read_pieces split
read_rest s h k = rw (split_by_whole (λ d. d == 10) s h, k) refl

-- The client returns the lines of a response up to the sentinel, as they were sent, and nothing of
-- the sentinel or what follows it. Of a connection that breaks off in a line, and sends no
-- sentinel, it returns the lines and the part: a response cut short is not told from a whole one.
pub response_read :
    (body : List Text) (more : Text)
    → All IsBodyLine body
    → (read_response (unlines body ++ (lit "---DONE---" ++ (10 ∷ more))) ≡ unlines body)
      × (any (λ d. d == 10) more ≡ false
          → is_sentinel more ≡ false
          → read_response (unlines body ++ more) ≡ unlines body ++ more)
response_read [] more h = (
  read_sentinel (lit "---DONE---") more (unfold lit in refl)
      (unfold is_sentinel lit str_eq trim_space in refl),
  λ o d. read_rest more o d,
)
response_read (l ∷ ls) more h =
    let r = response_read ls more h.1 in
    let sentinel = lit "---DONE---" ++ (10 ∷ more) in
    (
      ap read_response (append_assoc l (10 ∷ unlines ls) sentinel)
          ∙ (read_line l (unlines ls ++ sentinel) h.0 ∙ ap (λ t. l ++ (10 ∷ t)) r.0),
      λ o d.
          ap read_response (append_assoc l (10 ∷ unlines ls) more)
          ∙ (read_line l (unlines ls ++ more) h.0
              ∙ ap (λ t. l ++ (10 ∷ t)) (r.1 o d)
              ∙ sym (append_assoc l (10 ∷ unlines ls) more)),
    )
