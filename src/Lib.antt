-- ===== src/Lib.antt =====
-- JDFTx, the density-functional code behind pythonJDFTx: the parts of its program that decide
-- what is run, in which order and by whom.
--
-- An input file is read with its includes (jdftx/commands/parser.cpp, Commands.Input), its
-- commands are looked up in the static map of commands (jdftx/commands/command.cpp,
-- Commands.Command) and run in passes that respect what they require (`ProcessedCommandMap`,
-- Commands.Schedule), with defaults and checks (`parse` and `safeProcess`, Commands.Execution;
-- what `process` of a command does is an argument); Commands.Manual holds the texts of the
-- manual made from that map. The work that follows is divided over processes (`TaskDivision` of
-- jdftx/core/MPIUtil.cpp, Core.Tasks) and threads (jdftx/core/Thread.h, Core.Threads;
-- jdftx/core/AutoThreadCount.cpp, Core.Threads.Tuning). The optimisers are templates over
-- vectors: Core.Minimize holds `Minimizable` with its line minimisations, lBFGS and the linear
-- solver (jdftx/core/Minimize.h, Minimize_linmin.h, Minimize_lBFGS.h), and Core.Pulay the mixing
-- of self-consistent cycles (jdftx/core/Pulay.h). Doubles, vectors and the objective are
-- arguments (Core.Number); what is said of sums of steps is said of exact arithmetic. Core.Grid
-- has the loops over the points of the box (jdftx/core/LoopMacros.h), the index functions
-- (jdftx/core/GridInfo.h) and the choice of the size of the box (jdftx/core/GridInfo.cpp).
-- Core.Memory has the blocks of numbers on the CPU and the GPU with the report of their use
-- (jdftx/core/ManagedMemory.cpp), for any allocator. Electronic.Matrix has the matrices of
-- jdftx/electronic/matrix.cpp: blocks, transposes, diagonals, over the complex numbers of
-- jdftx/core/scalar.h (Core.Complex). Electronic.Kmesh has the reduction of k-points by
-- symmetries (`reduceKmesh` of jdftx/electronic/Symmetries.cpp), shared by processes,
-- Electronic.Fields the symmetrization of fields on the box (`checkFFTbox`, `initSymmIndex` and
-- `symmetrize` of the same file, eblas_symmetrize of jdftx/core/BlasExtra.cpp, run by the
-- threads of Core.Threads), Electronic.Folding the mesh made of the k-points of the input and
-- Electronic.States the states made of the reduced ones (`kpointsFold` and `kpointsReduce` of
-- jdftx/electronic/ElecInfo.cpp), whose bands Electronic.Filling fills (`findMu`). Common holds
-- what all of these share, and Core.Text the texts of jdftx/core/string.h.
--
-- A function of the source keeps its name, in snake case. A text is the list of its bytes; a
-- call of `die` is an outcome that names the message (Core.Outcome). Numbers are natural
-- numbers, with the wrap-around of size_t written out where products may exceed it and where the
-- index of a loop steps past its end. The environment, the files and the clock are arguments.
-- Loops that search until nothing is left take fuel: the passes over the commands one more than
-- there are commands, the substitution of variables and the depth of includes as much as they
-- are given, the search for a size of the box as much as the sum of the minimal sizes, the gcd
-- one more than its second number, the search for a chemical potential more than its steps and a
-- measure of the range that it lowers, with theorems that say how much suffices.
--
-- Not modelled: the floating-point physics (electronic, fluid, wannier, phonon), the calls of
-- MPI, FFTW and CUDA, the log output, and the bindings to Python.
pub mod Common
pub mod Core
pub mod Commands
pub mod Electronic
