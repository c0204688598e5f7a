-- ===== src/Rfc5321/Commands/Envelopes.antt =====
-- src/rfc5321.rs: MAIL and RCPT read their lines.
use rustyknife.External.{External}
use rustyknife.Nom.{Nom, ok, tag, opt, preceded}
use rustyknife.Prelude.{◌≡◌, refl, ap, List, [], ◌∷◌, ◌++◌, Option, none, some, Bytes, codes, arith}
use rustyknife.Rfc5234.{crlf}
use rustyknife.Rfc5321.Commands.ForwardPaths.{IsForward, forward_path_read_back}
use rustyknife.Nom.Rules.{tag_no_case-letters}
use rustyknife.Rfc5321.Commands.Lines.{InAnyCase}
use rustyknife.Rfc5321.Commands.Paths.{IsReverse, reverse_path_read_back}
use rustyknife.Rfc5321.Commands.{
  mail_command, rcpt_command, ForwardPath, ReversePath, display_forward_path, display_reverse_path,
  unwrap_or_default,
}
use rustyknife.Rfc5321.Mailboxes.LegacyTexts.{legacy_texts}
use rustyknife.Rfc5321.Params.Complete.{AreParams, EndsLast-crlf, esmtp_params-display_params}
use rustyknife.Rfc5321.Params.{Param, esmtp_params, display_params}
use rustyknife.Rfc5321.Policy.{legacy}

-- The parameters behind a path, with a blank before them, and the end of the line.
abbrev pub ending : List Param → Bytes → Bytes
ending [] r = codes "\r\n" ++ r
ending (p ∷ ps) r = b' ' ∷ (display_params (p ∷ ps) ++ (codes "\r\n" ++ r))

abbrev given : List Param → Option (List Param)
given [] = none
given (p ∷ ps) = some (p ∷ ps)

module _ ⦃nom : Nom⦄ where
  params_read_back :
      (ps : List Param) (r : Bytes)
      → AreParams ps
      → opt (preceded (tag (codes " ")) (esmtp_params legacy)) (ending ps r)
        ≡ ok (codes "\r\n" ++ r) (given ps)
  params_read_back [] r h = rw (nom.opt_law, nom.preceded_law, nom.tag_law) refl
  params_read_back (p ∷ ps) r h =
      rw
        (
          nom.opt_law,
          nom.preceded_law,
          nom.tag_law,
          esmtp_params-display_params p ps (codes "\r\n" ++ r) h (omega arith, omega arith)
              (EndsLast-crlf p ps r),
        )
        refl

  given_default : (ps : List Param) → unwrap_or_default (given ps) ≡ ps
  given_default [] = refl
  given_default (p ∷ ps) = refl

  pub line_end : (r : Bytes) → crlf (codes "\r\n" ++ r) ≡ ok r (codes "\r\n")
  unfolding crlf
  line_end r = rw nom.tag_law refl

  module _ ⦃ext : External⦄ where
    pub mail_read_back :
        (w : Bytes) (a : ReversePath) (ps : List Param) (r : Bytes)
        → InAnyCase (codes "MAIL FROM:") w
        → IsReverse legacy_texts a
        → AreParams ps
        → mail_command legacy (w ++ (display_reverse_path a ++ ending ps r)) ≡ ok r (a, ps)
    unfolding mail_command
    mail_read_back w a ps r e ha hp =
        rw
          (
            nom.map_law,
            nom.delimited_law,
            tag_no_case-letters (codes "MAIL FROM:") w _ e,
            nom.pair_law,
            reverse_path_read_back legacy_texts a (ending ps r) ha,
            params_read_back ps r hp,
            line_end,
          )
          (ap (λ x. ok r (a, x)) (given_default ps))

    pub rcpt_read_back :
        (w : Bytes) (a : ForwardPath) (ps : List Param) (r : Bytes)
        → InAnyCase (codes "RCPT TO:") w
        → IsForward legacy_texts a
        → AreParams ps
        → rcpt_command legacy (w ++ (display_forward_path a ++ ending ps r)) ≡ ok r (a, ps)
    unfolding rcpt_command
    rcpt_read_back w a ps r e ha hp =
        rw
          (
            nom.map_law,
            nom.delimited_law,
            tag_no_case-letters (codes "RCPT TO:") w _ e,
            nom.pair_law,
            forward_path_read_back legacy_texts a (ending ps r) ha,
            params_read_back ps r hp,
            line_end,
          )
          (ap (λ x. ok r (a, x)) (given_default ps))
