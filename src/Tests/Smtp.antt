-- ===== src/Tests/Smtp.antt =====
-- src/tests/test_rfc5321.rs, and the SMTP theorems at inputs.
use rustyknife.Nom.Reference.{reference}
use rustyknife.Nom.Rules.{Takes-Sound, Sound-take1_filter}
use rustyknife.Nom.{ok}
use rustyknife.Prelude.{◌≡◌, refl, [], ◌∷◌, ◌++◌, none, some, inr, codes, arith}
use rustyknife.Rfc5321.Commands.{mail, null, reverse, command, mail_command}
use rustyknife.Rfc5321.Params.{Param, esmtp_param, esmtp_params, display_param, display_params}
use rustyknife.Rfc5321.Params.Complete.{esmtp_params-display_params}
use rustyknife.Rfc5321.Params.Sound.{display_param-esmtp_param, IsKeyword}
use rustyknife.Rfc5321.Policy.{legacy, is_ldh, is_esmtp_value_char}
use rustyknife.Util.{take1_filter}
use rustyknife.Types.{LocalPart, DomainPart}
use rustyknife.Tests.Samples.{plain}

abbrev pub ret_full : Param
ret_full = record { keyword = codes "RET"; value = some (codes "FULL") }

abbrev pub smtputf8 : Param
smtputf8 = record { keyword = codes "SMTPUTF8"; value = none }

mail_command_run :
    mail_command legacy (codes "MAIL FROM:<> RET=FULL SMTPUTF8\r\n")
    ≡ ok [] (null, ret_full ∷ smtputf8 ∷ [])
unfolding reference mail_command legacy
mail_command_run = refl

command_run :
    command legacy (codes "mail from:<bob@example.com>\r\n")
    ≡ ok [] (
        mail
          (reverse (record {
            path_mailbox = record {
              local_part = LocalPart.dot_atom (codes "bob");
              domain_part = DomainPart.domain (codes "example.com");
            };
            route = [];
          }))
          [])
unfolding reference command legacy
command_run = refl

esmtp_param_run : esmtp_param legacy (codes "RET=FULL\r\n") ≡ ok (codes "\r\n") ret_full
unfolding reference esmtp_param legacy
esmtp_param_run = refl

display_param-esmtp_param_example :
    (codes "RET=FULL\r\n" ≡ display_param ret_full ++ codes "\r\n") × IsKeyword ret_full.keyword
unfolding legacy
display_param-esmtp_param_example =
    display_param-esmtp_param legacy
      (Takes-Sound (take1_filter is_esmtp_value_char) (Sound-take1_filter is_esmtp_value_char))
      (codes "RET=FULL\r\n") (codes "\r\n") ret_full esmtp_param_run

esmtp_params-display_params_example :
    esmtp_params legacy (display_params (ret_full ∷ smtputf8 ∷ []) ++ codes "=\r\n")
    ≡ ok (codes "=\r\n") (ret_full ∷ smtputf8 ∷ [])
unfolding reference is_ldh
esmtp_params-display_params_example =
    esmtp_params-display_params ret_full (smtputf8 ∷ []) (codes "=\r\n") (ground arith)
      (omega arith, omega arith) (refl, inr refl)
