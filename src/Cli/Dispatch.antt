-- ===== src/Cli/Dispatch.antt =====
-- integrity.go: no argument makes `main` panic, and every command can be asked for.
use ship_grip_fim.Base.{
  ℕ, zero, suc, Bool, true, false, ◌≡◌, ◌≢◌, refl, List, [], ◌∷◌, Text, lit, str_eq, if◌then◌else◌,
  leb, ltb, length, drop, arith, ◌∙◌, ap, str_eq_iff,
}
use ship_grip_fim.Cli.{
  Cli, scan, list, agent, gui, hosts, pingall, exporter, webgui, quickcompare, fingerprint, version,
  report_data, compare, remote, sync, start, remoteall, deploy, user, Run, usage, out_of_range,
  runs, at, from, check_args, with_alias, dispatch, run_main,
}
use ship_grip_fim.Cli.Words.{words_of, is_complete, words_run}

abbrev IsInside : Run → Type 0
IsInside r = r ≢ out_of_range

runs-IsInside : (c : Cli) → IsInside (runs c)
runs-IsInside c e = cc

usage-IsInside : IsInside usage
usage-IsInside e = cc

either :
    (b : Bool) (x y : Run)
    → (b ≡ true → IsInside x)
    → (b ≡ false → IsInside y)
    → IsInside (if b then x else y)
either true x y p q = p refl
either false x y p q = q refl

-- What the first switch makes sure of.
record IsEnough (action : Text) (positional : List Text) : Type 0 where
  for_remote : str_eq action (lit "remote") ≡ true → leb 4 (length positional) ≡ true
  for_others : leb 1 (length positional) ≡ true

at-IsInside :
    (i : ℕ) (positional : List Text) (f : Text → Run)
    → ltb i (length positional) ≡ true
    → ((s : Text) → IsInside (f s))
    → IsInside (at i positional f)
unfolding at
at-IsInside i [] f h p = λ e. absurd (ground arith)
at-IsInside zero (a ∷ rest) f h p = p a
at-IsInside (suc i) (a ∷ rest) f h p = at-IsInside i rest f (ground arith) p

from-IsInside :
    (n : ℕ) (positional : List Text) (f : List Text → Run)
    → leb n (length positional) ≡ true
    → ((ss : List Text) → IsInside (f ss))
    → IsInside (from n positional f)
unfolding from
from-IsInside n positional f h p = rw h (p (drop n positional))

with_alias-IsInside : (positional : List Text) (f : Text → Cli) → IsInside (with_alias positional f)
unfolding with_alias
with_alias-IsInside positional f =
    either (leb 2 (length positional)) _ _
      (λ e. at-IsInside 1 positional _ (ground arith) (λ s. runs-IsInside (f s)))
      (λ e. runs-IsInside (f []))

dispatch-IsInside :
    (action : Text) (p : List Text) (id1 id2 : Text)
    → IsEnough action p
    → IsInside (dispatch action p id1 id2)
unfolding dispatch
dispatch-IsInside action p id1 id2 enough =
    either (str_eq action (lit "scan")) _ _ (λ e. runs-IsInside scan)
      (λ e.
        either (str_eq action (lit "list")) _ _ (λ e. runs-IsInside list)
          (λ e.
            either (str_eq action (lit "data")) _ _ (λ e. runs-IsInside (report_data id1))
              (λ e.
                either (str_eq action (lit "compare")) _ _ (λ e. runs-IsInside (compare id1 id2))
                  (λ e.
                    either (str_eq action (lit "agent")) _ _ (λ e. runs-IsInside agent)
                      (λ e.
                        either (str_eq action (lit "gui")) _ _ (λ e. runs-IsInside gui)
                          (λ e.
                            either (str_eq action (lit "remote")) _ _
                              (λ e. at-IsInside 1 p _ (long 1 e refl) (λ host.
                                at-IsInside 2 p _ (long 2 e refl) (λ port.
                                  from-IsInside 3 p _ (ground (arith, enough.for_remote e))
                                    (λ args. runs-IsInside (remote host port args)))))
                              (λ e.
                                either (str_eq action (lit "hosts")) _ _ (λ e. runs-IsInside hosts)
                                  (λ e.
                                    either (str_eq action (lit "pingall")) _ _
                                      (λ e. runs-IsInside pingall)
                                      (λ e.
                                        either (str_eq action (lit "sync")) _ _
                                          (λ e. with_alias-IsInside p sync)
                                          (λ e.
                                            either (str_eq action (lit "remoteall")) _ _
                                              (λ e.
                                                from-IsInside 1 p _ enough.for_others
                                                  (λ args. runs-IsInside (remoteall args)))
                                              (λ e.
                                                either (str_eq action (lit "start")) _ _
                                                  (λ e. with_alias-IsInside p start)
                                                  (λ e.
                                                    either (str_eq action (lit "deploy")) _ _
                                                      (λ e.
                                                        from-IsInside 1 p _ enough.for_others
                                                          (λ args. runs-IsInside (deploy args)))
                                                      (λ e.
                                                        either (str_eq action (lit "exporter")) _ _
                                                          (λ e. runs-IsInside exporter)
                                                          (λ e.
                                                            either (str_eq action (lit "webgui")) _
                                                            _ (λ e. runs-IsInside webgui)
                                                            (λ e.
                                                            either
                                                            (str_eq action (lit "quickcompare")) _ _
                                                            (λ e. runs-IsInside quickcompare)
                                                            (λ e.
                                                            either (str_eq action (lit "user")) _ _
                                                            (λ e.
                                                            from-IsInside 1 p _ enough.for_others
                                                            (λ args. runs-IsInside (user args)))
                                                            (λ e.
                                                            either
                                                            (str_eq action (lit "fingerprint")) _ _
                                                            (λ e. runs-IsInside fingerprint)
                                                            (λ e.
                                                            either (str_eq action (lit "version")) _
                                                            _ (λ e. runs-IsInside version)
                                                            (λ e. usage-IsInside)))))))))))))))))))
  where
    long : (i : ℕ) → str_eq action (lit "remote") ≡ true → ltb i 3 ≡ true → ltb i (length p) ≡ true
    long i e k = ground (arith, enough.for_remote e)

clash : {A : Type 0} (b : Bool) → b ≡ true → b ≡ false → A
clash b p q = absurd (ground arith)

other_word :
    (action a b : Text) {A : Type 0}
    → str_eq a b ≡ false
    → str_eq action a ≡ true
    → str_eq action b ≡ true
    → A
other_word action a b d e h =
    clash (str_eq action b) h (ap (λ w. str_eq w b) ((str_eq_iff action a).0 e) ∙ d)

check_args-IsInside :
    (action : Text) (p : List Text) (f : Text → Text → Run)
    → leb 1 (length p) ≡ true
    → ((id1 id2 : Text) → IsEnough action p → IsInside (f id1 id2))
    → IsInside (check_args action p f)
unfolding check_args
check_args-IsInside action p f h inside =
    either (str_eq action (lit "data")) _ _
      (λ e.
        either (leb 2 (length p)) _ _
          (λ l.
            at-IsInside 1 p _ (ground arith)
              (λ id1. inside id1 [] (not_remote (lit "data") (unfold lit str_eq in refl) e)))
          (λ l. usage-IsInside))
      (λ e.
        either (str_eq action (lit "compare")) _ _
          (λ e'.
            either (leb 3 (length p)) _ _
              (λ l. at-IsInside 1 p _ (ground arith) (λ id1.
                at-IsInside 2 p _ (ground arith) (λ id2.
                  inside id1 id2 (not_remote (lit "compare") (unfold lit str_eq in refl) e'))))
              (λ l. usage-IsInside))
          (λ e'.
            either (str_eq action (lit "remote")) _ _
              (λ r.
                either (ltb (length p) 4) _ _ (λ l. usage-IsInside)
                  (λ l. inside [] [] (record { for_remote = λ k. ground arith; for_others = h })))
              (λ r.
                either (str_eq action (lit "remoteall")) _ _ (λ a. few_or (absent r))
                  (λ a.
                    either (str_eq action (lit "user")) _ _ (λ u. few_or (absent r))
                      (λ u. inside [] [] (absent r))))))
  where
    absent : str_eq action (lit "remote") ≡ false → IsEnough action p
    absent r = record { for_remote = λ k. clash (str_eq action (lit "remote")) k r; for_others = h }

    not_remote :
        (w : Text) → str_eq w (lit "remote") ≡ false → str_eq action w ≡ true → IsEnough action p
    not_remote w d e = record {
      for_remote = λ k. other_word action w (lit "remote") d e k;
      for_others = h;
    }

    few_or : IsEnough action p → IsInside (if ltb (length p) 2 then usage else f [] [])
    few_or enough = either (ltb (length p) 2) _ _ (λ l. usage-IsInside) (λ l. inside [] [] enough)

-- No list of arguments makes the program index it out of range, and every command of which the
-- arguments are complete (with a command for another host, or for the users, where one is wanted) is
-- run with these arguments.
pub main_commands :
    (positional : List Text) (c : Cli)
    → is_complete c ≡ true
    → (run_main positional ≢ out_of_range) × (run_main (words_of c) ≡ runs c)
unfolding run_main
main_commands [] c h = (usage-IsInside, words_run c h)
main_commands (action ∷ args) c h = (
  check_args-IsInside action (action ∷ args) _ (ground arith)
      (λ id1 id2 enough. dispatch-IsInside action (action ∷ args) id1 id2 enough),
  words_run c h,
)
