-- ===== src/Commands/Tests/Manuals.antt =====
-- The texts of the manual.
use python_jdftx.Common.{◌≡◌, refl}
use python_jdftx.Core.Text.{codes, text_eq, to_upper, char_eq, find_first_of, before_first}
use python_jdftx.Commands.Command.{find_command}
use python_jdftx.Commands.Input.{lines_of}
use python_jdftx.Commands.Manual.{
  html_escape_characters, escape_char, id_from, command_name_to_id, html_add_links, add_links, link,
  print_commented, comment_lines, commented_line,
}
use python_jdftx.Commands.Tests.Maps.{commands}

program : Unit {0}
unfolding html_escape_characters escape_char id_from to_upper command_name_to_id html_add_links
    add_links link text_eq char_eq find_command find_first_of before_first print_commented
    comment_lines commented_line lines_of
program = tt

id_runs : command_name_to_id (codes "ion-species") ≡ codes "CommandIonSpecies"
unfolding program
id_runs = refl

link_runs :
    html_add_links commands (codes "use ion-species, or ion")
    ≡ codes "use \\ref CommandIonSpecies \"ion-species\", or ion"
unfolding program
link_runs = refl

link_explicit :
    html_add_links commands (codes "see command ion") ≡ codes "see command \\ref CommandIon \"ion\""
unfolding program
link_explicit = refl
