-- ===== src/Tests/Forwarded.antt =====
-- The XFORWARD command at inputs.
use rustyknife.Nom.Reference.{reference}
use rustyknife.Nom.{ok}
use rustyknife.Prelude.{◌≡◌, ◌↔◌, refl, List, [], ◌∷◌, none, some, Bytes, codes, to_ascii_lowercase}
use rustyknife.Tests.Samples.{plain}
use rustyknife.Xforward.Accepts.{command-CommandText_iff}
use rustyknife.Xforward.Texts.{CommandText}
use rustyknife.Xforward.{Param, command}

abbrev line : Bytes
line = codes "xforward NAME=spike.example.org \taddr=[Unavailable] proto=a+2Bb\r\nQUIT"

abbrev params : List Param
params =
    record { name = codes "name"; value = some (codes "spike.example.org") }
    ∷ record { name = codes "addr"; value = none }
    ∷ record { name = codes "proto"; value = some (codes "a+b") }
    ∷ []

command_run : command line ≡ ok (codes "QUIT") params
unfolding reference command to_ascii_lowercase
command_run = refl

command-CommandText_iff_example :
    (command line ≡ ok (codes "QUIT") params) ↔ CommandText line (codes "QUIT") params
command-CommandText_iff_example = command-CommandText_iff line (codes "QUIT") params
