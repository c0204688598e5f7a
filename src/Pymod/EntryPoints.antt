-- ===== src/Pymod/EntryPoints.antt =====
-- src/pymod.rs: the functions of the Python module.
use rustyknife.External.{External}
use rustyknife.Headersection.{header_section}
use rustyknife.Nom.{Nom, ok, err}
use rustyknife.Prelude.{
  ℕ, ◌-◌, Bool, true, List, [], ◌∷◌, ◌++◌, Option, none, some, Bytes, codes, ltb, length, lowercase,
  if◌then◌else◌,
}
use rustyknife.Pymod.Objects.{
  Python, Object, objects, PyResult, returned, raised, os_error, map_result, convert_result,
  reason_text, xforward_param_into_py, esmtp_param_into_py, dsn_mail_params_into_py,
  dsn_param_into_py, field_into_py, address_into_py, forward_path_into_py, reverse_path_into_py,
}
use rustyknife.Rfc2231.Headers.{
  content_type, content_disposition, content_transfer_encoding, display_disposition,
  display_encoding,
}
use rustyknife.Rfc3461.MailParams.{dsn_mail_params, success, failed}
use rustyknife.Rfc3461.MailParams as Dsn
use rustyknife.Rfc3461.Orcpt.{orcpt_address}
use rustyknife.Rfc5321.Commands.{mail_command, rcpt_command}
use rustyknife.Rfc5321.Mailboxes.{validate_address}
use rustyknife.Rfc5321.Policy as Smtp
use rustyknife.Rfc5322.Addresses.{from, sender, reply_to, unstructured}
use rustyknife.Rfc5322.Policy as Imf
use rustyknife.Xforward as Xforward

-- `usize::checked_sub`
abbrev pub checked_sub : ℕ → ℕ → Option ℕ
checked_sub a b = if ltb a b then none else some (a - b)

module _ ⦃nom : Nom⦄ ⦃py : Python⦄ where
  -- What `header_section_slice` makes of a parsed section; none where `unwrap` would panic.
  abbrev slice_result : Option ℕ → List Object → Option (PyResult Object)
  slice_result none headers = none
  slice_result (some header_end) headers =
      some (returned (py.py_tuple (py.py_list headers ∷ py.py_int header_end ∷ [])))

  unfoldable pub header_section_slice : Bytes → Option (PyResult Object)
  unfolding header_section field_into_py
  header_section_slice input = elim (header_section input) [
    | err e ↦ some (raised (py.debug_err e ++ codes "."))
    | ok rem out ↦
        slice_result (checked_sub (length input) (length rem)) (objects field_into_py out)
  ]

  unfoldable pub py_header_section : Bytes → Option (PyResult Object)
  unfolding header_section_slice
  py_header_section = header_section_slice

  -- The file that the name stands for is opened and mapped by the argument, whose error is passed on.
  unfoldable pub py_header_section_file :
      (Bytes → PyResult Bytes) → Bytes → Option (PyResult Object)
  unfolding header_section_slice
  py_header_section_file open_and_map fname = elim (open_and_map fname) [
    | raised message ↦ some (raised message)
    | os_error message ↦ some (os_error message)
    | returned fmap ↦ header_section_slice fmap
  ]

  module _ ⦃ext : External⦄ where
    unfoldable pub py_from : Bytes → PyResult Object
    unfolding convert_result from address_into_py
    py_from input =
        map_result (λ as'. py.py_list (objects address_into_py as'))
          (convert_result (from Imf.intl input) true)

    unfoldable pub py_sender : Bytes → PyResult Object
    unfolding convert_result sender address_into_py
    py_sender input = map_result address_into_py (convert_result (sender Imf.intl input) true)

    unfoldable pub py_reply_to : Bytes → PyResult Object
    unfolding convert_result reply_to address_into_py
    py_reply_to input =
        map_result (λ as'. py.py_list (objects address_into_py as'))
          (convert_result (reply_to Imf.intl input) true)

    unfoldable pub py_xforward_params : Bytes → PyResult Object
    unfolding convert_result Xforward.xforward_params xforward_param_into_py
    py_xforward_params input =
        map_result (λ ps. py.py_list (objects xforward_param_into_py ps))
          (convert_result (Xforward.xforward_params input) true)

    unfoldable pub py_orcpt_address : Bytes → PyResult Object
    unfolding convert_result orcpt_address
    py_orcpt_address input =
        map_result (λ (a, b). py.py_tuple (py.py_str a ∷ py.py_str b ∷ []))
          (convert_result (orcpt_address input) true)

    unfoldable pub py_dsn_mail_params : List Dsn.Param → PyResult Object
    unfolding dsn_mail_params dsn_mail_params_into_py reason_text
    py_dsn_mail_params input = elim (dsn_mail_params input) [
      | success (parsed, rem) ↦ returned (
          py.py_tuple
            (dsn_mail_params_into_py parsed ∷ py.py_list (objects dsn_param_into_py rem) ∷ []))
      | failed why ↦ raised (reason_text why)
    ]

    unfoldable pub py_mail_command : Bytes → PyResult Object
    unfolding convert_result mail_command Smtp.legacy reverse_path_into_py esmtp_param_into_py
    py_mail_command input =
        map_result
          (λ (addr, params).
            py.py_tuple
              (reverse_path_into_py addr ∷ py.py_list (objects esmtp_param_into_py params) ∷ []))
          (convert_result (mail_command Smtp.legacy input) true)

    unfoldable pub py_rcpt_command : Bytes → PyResult Object
    unfolding convert_result rcpt_command Smtp.legacy forward_path_into_py esmtp_param_into_py
    py_rcpt_command input =
        map_result
          (λ (addr, params).
            py.py_tuple
              (forward_path_into_py addr ∷ py.py_list (objects esmtp_param_into_py params) ∷ []))
          (convert_result (rcpt_command Smtp.legacy input) true)

    unfoldable pub py_validate_address : Bytes → Bool
    unfolding validate_address Smtp.legacy
    py_validate_address input = validate_address Smtp.legacy input

    unfoldable pub py_unstructured : Bytes → PyResult Object
    unfolding convert_result unstructured Imf.intl
    py_unstructured input = map_result py.py_str (convert_result (unstructured Imf.intl input) true)

    -- The name of the type and the parameters; none where the decoding would be unreachable.
    abbrev named_parameters : Bytes → Option (List (Bytes × Bytes)) → Option Object
    named_parameters name none = none
    named_parameters name (some params) = some (
        py.py_tuple (
          py.py_str name
          ∷ py.py_list (objects (λ (k, v). py.py_tuple (py.py_str k ∷ py.py_str v ∷ [])) params)
          ∷ []))

    unfoldable pub py_content_type : Bytes → Bool → PyResult (Option Object)
    unfolding convert_result content_type
    py_content_type input whole =
        map_result (λ (name, params). named_parameters name params)
          (convert_result (content_type input) whole)

    -- The tokens are ASCII, so `to_lowercase` is that of ASCII letters.
    unfoldable pub py_content_disposition : Bytes → Bool → PyResult (Option Object)
    unfolding convert_result content_disposition display_disposition
    py_content_disposition input whole =
        map_result (λ (cd, params). named_parameters (lowercase (display_disposition cd)) params)
          (convert_result (content_disposition input) whole)

  unfoldable pub py_content_transfer_encoding : Bytes → Bool → PyResult Object
  unfolding convert_result content_transfer_encoding display_encoding
  py_content_transfer_encoding input whole =
      map_result (λ cte. py.py_str (lowercase (display_encoding cte)))
        (convert_result (content_transfer_encoding input) whole)
