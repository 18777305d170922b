-- ===== src/Tests/Win32.antt =====
-- Arguments for `cmd.exe` of tasks/_inv/shell.py.
use cdbx.Base.{◌≡◌, refl, some, Text, codes}
use cdbx.Shell.Format.{◌>>=◌}
use cdbx.Shell.Win32.{metasub, quote_token}
use cdbx.Shell.Win32.Argument.{cmd_reads, read_argument, read_argument-quote_token}

abbrev token : Text
token = codes "a \\\"b\\"

quoted : metasub (quote_token token) ≡ codes "^\"a^ \\\\\\^\"b\\\\^\""
unfolding metasub quote_token
quoted = refl

read_argument-quote_token_example :
    (cmd_reads (metasub (quote_token token)) >>= read_argument) ≡ some token
read_argument-quote_token_example =
    read_argument-quote_token token (refl, (refl, (refl, (refl, (refl, (refl, tt))))))
