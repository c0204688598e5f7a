-- ===== src/Tests/Python.antt =====
-- The entry points of the Python module at inputs.
use rustyknife.Nom.Reference.{reference}
use rustyknife.Prelude.{◌≡◌, refl, [], ◌∷◌, codes, some, none, Bytes, to_ascii_lowercase}
use rustyknife.Pymod.EntryPoints.{header_section_slice, py_mail_command, py_dsn_mail_params}
use rustyknife.Pymod.HeaderEnd.{header_section_slice-Answer, Answer}
use rustyknife.Pymod.Objects.{returned, raised}
use rustyknife.Tests.PyValues.{
  trees, bytes_value, int_value, tuple_value, list_value, no_values, and_value,
}
use rustyknife.Tests.Samples.{plain}

abbrev message : Bytes
message = codes "A:b\r\n\r\nbody"

header_section_slice_run :
    header_section_slice message
    ≡ some (
        returned (
          tuple_value (
            and_value
              (list_value (
                and_value
                  (tuple_value (
                    and_value
                      (bytes_value (codes "A"))
                      (and_value (bytes_value (codes "b")) no_values)))
                  no_values))
              (and_value (int_value 7) no_values))))
unfolding reference header_section_slice
header_section_slice_run = refl

header_section_slice-Answer_example : Answer message (header_section_slice message)
header_section_slice-Answer_example = header_section_slice-Answer message

py_mail_command_run :
    py_mail_command (codes "MAIL FROM:<>\r\nX") ≡ raised (codes "Whole input did not match")
unfolding reference py_mail_command
py_mail_command_run = refl

py_dsn_mail_params_run :
    py_dsn_mail_params ((codes "RET", none) ∷ []) ≡ raised (codes "RET without value")
unfolding reference py_dsn_mail_params to_ascii_lowercase
py_dsn_mail_params_run = refl
