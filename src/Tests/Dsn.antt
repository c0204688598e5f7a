-- ===== src/Tests/Dsn.antt =====
-- The theorems about the DSN parameters at inputs.
use rustyknife.Nom.Reference.{reference}
use rustyknife.Prelude.{◌≡◌, ◌↔◌, refl, List, [], ◌∷◌, none, some, codes}
use rustyknife.Rfc3461.MailParams.FirstOffence.{FirstOffence, dsn_mail_params-failed_iff}
use rustyknife.Rfc3461.MailParams.Accepts.{
  dsn_mail_params-eq-success_iff, others, AtMostOnce, rets, envids,
}
use rustyknife.Rfc3461.MailParams.{
  DsnMailParams, Param, failed, duplicate_ret, success, hdrs, parse_ret, parse_envid,
  dsn_mail_params,
}
use rustyknife.Nom.{ok}
use rustyknife.Prelude.{◌++◌, Bytes, to_ascii_lowercase, true, false}
use rustyknife.Rfc3461.Notify.Flags.{dsn_notify-NotifyText, NotifyText}
use rustyknife.Rfc3461.Notify.{Notify, dsn_notify}
use rustyknife.Prelude.{Every-all, ltb, arith}
use rustyknife.Rfc3461.Orcpt.Encoded.{orcpt_address-encode}
use rustyknife.Rfc5322.Policy.{is_atext}
use rustyknife.Rfc3461.Orcpt.{orcpt_address}
use rustyknife.Rfc3461.Xtext.{xtext, is_printable}
use rustyknife.Rfc3461.Xtext.Encoded.{encode, xtext-encode}
use rustyknife.Tests.Samples.{plain}

abbrev given : List Param
given =
    (codes "Ret", some (codes "hdrs"))
    ∷ (codes "OTHER", none)
    ∷ (codes "ENVID", some (codes "a+2B"))
    ∷ []

abbrev parsed : DsnMailParams
parsed = record { envid = some (codes "a+"); ret = some hdrs }

dsn_mail_params_run : dsn_mail_params given ≡ success (parsed, (codes "OTHER", none) ∷ [])
unfolding reference dsn_mail_params
dsn_mail_params_run = refl

dsn_mail_params-eq-success_iff_example :
    (dsn_mail_params given ≡ success (parsed, (codes "OTHER", none) ∷ [])) ↔ (
      ((codes "OTHER", none) ∷ [] ≡ others given)
      × AtMostOnce parse_ret (rets given) parsed.ret
      × AtMostOnce parse_envid (envids given) parsed.envid)
dsn_mail_params-eq-success_iff_example =
    dsn_mail_params-eq-success_iff given parsed ((codes "OTHER", none) ∷ [])

abbrev failure_and_delay : Notify
failure_and_delay = record { on_success = false; on_failure = true; delay = true }

dsn_notify_run : dsn_notify (codes "Failure,DELAY,") ≡ ok (codes ",") failure_and_delay
unfolding reference dsn_notify to_ascii_lowercase
dsn_notify_run = refl

dsn_notify-NotifyText_example :
    (c : Bytes) × (codes "Failure,DELAY," ≡ c ++ codes ",") × NotifyText c failure_and_delay
dsn_notify-NotifyText_example =
    dsn_notify-NotifyText (codes "Failure,DELAY,") (codes ",") failure_and_delay dsn_notify_run

orcpt_address_run :
    orcpt_address (codes "rfc822;bob@example.org") ≡ ok [] (codes "rfc822", codes "bob@example.org")
unfolding reference orcpt_address
orcpt_address_run = refl

xtext-encode_example :
    xtext (encode (codes "a+b c") ++ codes "\r\n") ≡ ok (codes "\r\n") (codes "a+b c")
xtext-encode_example =
    xtext-encode (codes "a+b c") (codes "\r\n") (Every-all (λ c. ltb c 256) (codes "a+b c") refl)
      (refl, omega arith)

abbrev twice : List Param
twice =
    (codes "RET", some (codes "full"))
    ∷ (codes "OTHER", none)
    ∷ (codes "ret", some (codes "hdrs"))
    ∷ (codes "ENVID", none)
    ∷ []

dsn_mail_params-failed_iff_example :
    (dsn_mail_params twice ≡ failed duplicate_ret) ↔ FirstOffence twice duplicate_ret
dsn_mail_params-failed_iff_example = dsn_mail_params-failed_iff twice duplicate_ret

dsn_mail_params-failed_run : dsn_mail_params twice ≡ failed duplicate_ret
unfolding reference dsn_mail_params
dsn_mail_params-failed_run = refl

orcpt_address-encode_example :
    orcpt_address (codes "rfc822" ++ b';' ∷ (encode (codes "a+b@x y") ++ codes "\r\n"))
    ≡ ok (codes "\r\n") (codes "rfc822", codes "a+b@x y")
orcpt_address-encode_example =
    orcpt_address-encode b'r' (codes "fc822") (codes "a+b@x y") (codes "\r\n")
      (Every-all is_atext (codes "rfc822") refl) (Every-all is_printable (codes "a+b@x y") refl)
      (refl, omega arith)
