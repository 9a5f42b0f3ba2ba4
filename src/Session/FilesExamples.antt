-- ===== src/Session/FilesExamples.antt =====
-- A client that writes a file in a folder, reads the files, and types into its program.
use modigo_runner.Base.{
  ◌≡◌, refl, List, [], ◌∷◌, none, some, Text, codes, arith, ok, contains, has_prefix, has_suffix,
  trim_prefix, trim_space, split, text_eq, one_of,
}
use modigo_runner.Paths.{
  base, dir, ext, extension, clean, clean_stack, resolve_all, resolve, go_up, render, join_segments,
  through_last_slash, drop_slashes, last_segment,
}
use modigo_runner.Docker.Archive.{
  TarAnswers, tar_file, tar_dir, write_file_to_container, send_archive, archive_of, parent_entries,
  dir_entries,
}
use modigo_runner.Docker.Listing.{
  ExecAnswers, exec_quiet, skip_segment, should_skip_dir, should_skip_file, read_file, read_line,
  read_lines, folder_line, folder_lines, folders_of, read_files_from_container,
}
use modigo_runner.Docker.Listed.{AllShown, read_files_from_container-AllShown}
use modigo_runner.Session.Files.{sanitize}
use modigo_runner.Session.Writer.{Writer, Ended, ended, write_all, after, write_all-Ended}

files_code : Unit {0}
unfolding contains has_prefix has_suffix trim_prefix trim_space split text_eq one_of base dir ext
    extension clean clean_stack resolve_all resolve go_up render join_segments through_last_slash
    drop_slashes last_segment write_file_to_container send_archive archive_of parent_entries
    dir_entries exec_quiet skip_segment should_skip_dir should_skip_file read_file read_line
    read_lines folder_line folder_lines folders_of read_files_from_container sanitize write_all
    after
files_code = tt

abbrev no_error : TarAnswers
no_error = record { header = none; content = none; close = none; copy = none }

abbrev typed : Text
typed = codes "x = 1"

archived : write_file_to_container no_error (codes "src/lib/a.py") typed ≡ (
  some (
      tar_dir (codes "src/") record { owner = 7; group = 5; others = 5 }
      ∷ tar_dir (codes "src/lib/") record { owner = 7; group = 5; others = 5 }
      ∷ tar_file (codes "src/lib/a.py") record { owner = 6; group = 4; others = 4 } typed
      ∷ []),
  none,
)
unfolding files_code
archived = refl

-- Each command prints the same paths.
abbrev exec : List Text → ExecAnswers
exec cmd = record {
  create = none;
  attach = none;
  output = ok (codes "/code/a.py\n/code/.git/config\n/code/dist/b.js\n/code/b.o\n");
}

shown : AllShown exec (
    ok (
      record {
        name = codes "a.py";
        content = codes "/code/a.py\n/code/.git/config\n/code/dist/b.js\n/code/b.o\n";
      }
          ∷ [],
      codes "a.py" ∷ codes "b.o" ∷ [],
    ))
unfolding files_code
shown = read_files_from_container-AllShown exec

-- A writer that takes one byte in a call.
abbrev slow : Writer
slow call bytes = (1, none)

write_all-Ended_example : Ended typed (write_all 5 slow 0 typed)
write_all-Ended_example =
    write_all-Ended 5 slow 0 typed (λ call c bytes q. (omega arith, omega arith)) (omega arith)

all_taken : write_all 5 slow 0 typed ≡ ended none typed
unfolding files_code
all_taken = refl
