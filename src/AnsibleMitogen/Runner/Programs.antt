-- ===== src/AnsibleMitogen/Runner/Programs.antt =====
-- mitogen-0.2.9/ansible_mitogen/runner.py: the runners that write a program to disk and run it by the
-- shell: `ProgramRunner`, `ScriptRunner`, `JsonArgsRunner`, `ArgsFileRunner`, `OldStyleRunner`.
pub mod Source
mod Tests
use ansible_course.Base.{
  ℕ, zero, suc, Bool, true, false, Text, Option, none, some, List, [], ◌∷◌, ◌++◌, ◌==◌, ◌&&◌,
  nat_key, map, if◌then◌else◌,
}
use ansible_course.Base.Lists.{codes, length}
use ansible_course.AnsibleMitogen.Runner.EnvFile.{join, partition}

-- `ProgramRunner._get_shell_fragment`, for the name of the program and its arguments.
pub shell_fragment : (Text → Text) → Text → List Text → Text
unfolding join
shell_fragment shlex_quote program args =
    shlex_quote program ++ (b' ' ∷ join (map shlex_quote args))

-- `ScriptRunner._get_shell_fragment`
pub script_fragment : (Text → Text) → Text → Text → List Text → Text
unfolding shell_fragment
script_fragment shlex_quote interpreter_fragment program args =
    interpreter_fragment ++ (b' ' ∷ shell_fragment shlex_quote program args)

-- `_get_argv`, with `_ansible_shell_executable` if the arguments have it.
abbrev or_sh : Option Text → Text
or_sh none = codes "/bin/sh"
or_sh (some shell) = shell

pub get_argv : Option Text → Text → List Text
get_argv shell fragment = or_sh shell ∷ codes "-c" ∷ fragment ∷ []

-- `ProgramRunner._run`: what `exec_args` returned, as text; or the exception.
pub data ExecResult : Type 0 where
  executed : ℕ → Text → Text → ExecResult
  exception : Text → ExecResult

pub program_result : (Text → Text) → ExecResult → ℕ × Text × Text
program_result to_text (executed rc out err) = (rc, to_text out, to_text err)
program_result to_text (exception e) = (1, [], e)

-- `bytes_partition(s, b('\n'))[2]`
abbrev pub or_empty : Option Text → Text
or_empty none = []
or_empty (some s) = s

pub behind_line : Text → Text
unfolding partition
behind_line s = or_empty (partition b'\n' s).1

abbrev pub lines_with : Bool → Text → Text
lines_with false rest = rest
lines_with true rest = codes "# -*- coding: utf-8 -*-" ++ (b'\n' ∷ rest)

-- `ScriptRunner._rewrite_source`: the lines joined by a newline.
pub rewrite_source : Text → Bool → Text → Text
unfolding behind_line
rewrite_source interpreter_fragment is_python s =
    (codes "#!" ++ interpreter_fragment) ++ (b'\n' ∷ lines_with is_python (behind_line s))

-- `bytes.replace(old, new)` with `old` of at least one byte: `skip` bytes belong to the last match.
pub starts_with : Text → Text → Bool
starts_with [] s = true
starts_with (c ∷ old) [] = false
starts_with (c ∷ old) (d ∷ s) = (c == d) && starts_with old s

pub replace_from : ℕ → Text → Text → ℕ → Text → Text
unfolding starts_with
replace_from behind old new skip [] = []
replace_from behind old new (suc skip) (c ∷ s) = replace_from behind old new skip s
replace_from behind old new zero (c ∷ s) =
    let matched = replace_from behind old new behind s in
    let other = replace_from behind old new zero s in
    if starts_with old (c ∷ s) then new ++ matched else c ∷ other

pub replace : Text → Text → Text → Text
unfolding replace_from
replace [] new s = s
replace (c ∷ old) new s = replace_from (length old) (c ∷ old) new zero s

-- `JsonArgsRunner._rewrite_source`, for the encoded arguments.
pub json_args_source : Text → Text → Bool → Text → Text
unfolding replace rewrite_source
json_args_source args interpreter_fragment is_python s =
    replace (codes "<<INCLUDE_ANSIBLE_MODULE_JSON_ARGS>>") args
      (rewrite_source interpreter_fragment is_python s)

-- `OldStyleRunner._get_args_contents`, over the arguments as text.
pub old_style_bits : (Text → Text) → List (Text × Text) → List Text
old_style_bits shlex_quote [] = []
old_style_bits shlex_quote ((key, value) ∷ rest) =
    (key ++ (b'=' ∷ shlex_quote value)) ∷ old_style_bits shlex_quote rest

pub old_style_args : (Text → Text) → List (Text × Text) → Text
unfolding old_style_bits join
old_style_args shlex_quote args = join (old_style_bits shlex_quote args) ++ (b' ' ∷ [])
